-- ===== src/Session/Cleanup.antt =====
-- What the clean-up of sessions removes.
use mcp_bridge.Prelude.{
  ℕ, ◌≡◌, refl, sym, ap, ◌∙◌, subst, ◌⊎◌, inl, inr, false, Option, none, some, List, [], ◌∷◌, arith,
  ◌≤◌, str_eq_refl, if◌then◌else◌, String, str_eq, eq_iff, StrMap, find, remove, find-remove, In,
  Bool-cases,
}
use mcp_bridge.Session.{
  Session, MemoryManager, lookup, is_expired, keys, clean_keys, perform_cleanup,
}

-- The session, if it has not expired.
abbrev pub live : ℕ → Option Session → Option Session
live now none = none
live now (some s) = if is_expired now s then none else some s

-- One key.
abbrev clean_one : String → ℕ → StrMap Session → StrMap Session
clean_one id now m = elim (find id m) [
  | none ↦ m
  | some s ↦ if is_expired now s then remove id m else m
]

-- An absent key, and one whose session has not expired, stay; any other goes.
clean_one_cases :
    (id : String) (now : ℕ) (m : StrMap Session)
    → ((clean_one id now m ≡ m) × (live now (find id m) ≡ find id m))
      ⊎ ((clean_one id now m ≡ remove id m) × (live now (find id m) ≡ none))
clean_one_cases id now m = go (find id m) refl
  where
    go :
        (o : Option Session)
        → find id m ≡ o
        → ((clean_one id now m ≡ m) × (live now o ≡ o))
          ⊎ ((clean_one id now m ≡ remove id m) × (live now o ≡ none))
    go none e = inl (rw (e, clean_one) refl, refl)
    go (some s) e = elim (Bool-cases (is_expired now s)) [
      | inl old ↦ inr (rw (e, clean_one) (rw old refl), rw old refl)
      | inr fresh ↦ inl (rw (e, clean_one) (rw fresh refl), rw fresh refl)
    ]

find-clean_one_same :
    (id : String) (now : ℕ) (m : StrMap Session)
    → find id (clean_one id now m) ≡ live now (find id m)
find-clean_one_same id now m = elim (clean_one_cases id now m) [
  | inl (e, l) ↦ ap (find id) e ∙ sym l
  | inr (e, l) ↦ ap (find id) e ∙ find-remove id id m ∙ rw (str_eq_refl id) (sym l)
]

find-clean_one_other :
    (id j : String) (now : ℕ) (m : StrMap Session)
    → str_eq id j ≡ false
    → find j (clean_one id now m) ≡ find j m
find-clean_one_other id j now m other = elim (clean_one_cases id now m) [
  | inl (e, l) ↦ ap (find j) e
  | inr (e, l) ↦ ap (find j) e ∙ find-remove id j m ∙ rw other refl
]

pub live-live :
    (now later : ℕ) (o : Option Session) → now ≤ later → live later (live now o) ≡ live later o
live-live now later none h = refl
live-live now later (some s) h = ground arith

-- Either the key was met and its session is gone if it had expired, or nothing changed for it.
find-clean_keys :
    (ids : List String) (j : String) (now : ℕ) (m : StrMap Session)
    → (find j (clean_keys ids now m) ≡ live now (find j m))
      ⊎ ((find j (clean_keys ids now m) ≡ find j m) × ¬ In j ids)
unfolding clean_keys
find-clean_keys [] j now m = inr (refl, λ i. i)
find-clean_keys (id ∷ ids) j now m = elim (Bool-cases (str_eq id j)) [
  | inl same ↦
      let e = (eq_iff id j).0 same in
      let here =
        subst (λ k. find k (clean_one id now m) ≡ live now (find k m)) e
          (find-clean_one_same id now m) in
      inl (elim (find-clean_keys ids j now (clean_one id now m)) [
        | inl more ↦ more ∙ ap (live now) here ∙ live-live now now (find j m) (omega arith)
        | inr (kept, _) ↦ kept ∙ here
      ])
  | inr other ↦
      let here = find-clean_one_other id j now m other in
      elim (find-clean_keys ids j now (clean_one id now m)) [
        | inl more ↦ inl (more ∙ ap (live now) here)
        | inr (kept, out) ↦ inr (
          kept ∙ here,
          λ i. elim i [ inl e ↦ absurd (ground (arith, eq_iff id j)) | inr rest ↦ out rest ],
        )
      ]
]

find-missing : (m : StrMap Session) (j : String) → ¬ In j (keys m) → find j m ≡ none
unfolding keys find
find-missing [] j out = refl
find-missing ((id, s) ∷ m) j out = elim (Bool-cases (str_eq id j)) [
  | inl same ↦ absurd (out (inl ((eq_iff id j).0 same)))
  | inr other ↦ rw other (find-missing m j (λ i. out (inr i)))
]

-- After a clean-up a session is found exactly if it was found before and had not expired.
pub lookup-perform_cleanup :
    (m : MemoryManager) (now : ℕ) (id : String)
    → lookup (perform_cleanup m now) id ≡ live now (lookup m id)
unfolding lookup perform_cleanup
lookup-perform_cleanup m now id = go m.sessions
  where
    go :
        (o : Option (StrMap Session))
        → lookup (perform_cleanup (record { sessions = o }) now) id
          ≡ live now (lookup (record { sessions = o }) id)
    go none = refl
    go (some sessions) = elim (find-clean_keys (keys sessions) id now sessions) [
      | inl e ↦ e
      | inr (e, out) ↦
          let gone = find-missing sessions id out in e ∙ gone ∙ sym (ap (live now) gone)
    ]
