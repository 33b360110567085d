-- ===== src/NamespaceRouter/Sorting.antt =====
-- The rules are kept in the order of their priorities.
use mathlib.Core.List.Permᴰ
use mathlib.Core.List.{Permᴰ}
use mcp_bridge.Prelude.{
  ℕ, zero, suc, ◌+◌, ◌-◌, ◌≤◌, ◌≡◌, refl, inl, inr, Bool, true, false, List, [], ◌∷◌, arith, tests,
  length, sym, subst, All, All-map, All-keep, Bool-cases, if◌then◌else◌, keep,
}
use mcp_bridge.Prelude.Int.{◌≤ℤ◌, ltb_ℤ}
use mcp_bridge.NamespaceRouter.{Regexp, Rule, later, exchange, sort_rounds, sort_rules, insert_rule}

-- What holds of all elements holds of all after a rearrangement.
All-of_Permᴰ {ℓ κ} :
    {A : Type ℓ} (P : A → Type κ) {xs ys : List A} → Permᴰ xs ys → All P ys → All P xs
All-of_Permᴰ P Permᴰ.nil h = h
All-of_Permᴰ P (Permᴰ.cons e p) (h, hs) = (subst P (sym e) h, All-of_Permᴰ P p hs)
All-of_Permᴰ P (Permᴰ.swap e f) (h, (k, hs)) = (subst P (sym e) k, (subst P (sym f) h, hs))
All-of_Permᴰ P (Permᴰ.trans p q) h = All-of_Permᴰ P p (All-of_Permᴰ P q h)

module _ (E : Regexp) where
  -- `r` may stand before `s`.
  abbrev pub Before : Rule E → Rule E → Type 0
  Before r s = r.priority ≤ℤ s.priority

  abbrev pub IsSorted : List (Rule E) → Type 0
  IsSorted [] = Unit {0}
  IsSorted (r ∷ rs) = All (Before r) rs × IsSorted rs

  -- The first part precedes the others, which are the same rules together.
  abbrev Settled : Rule E → List (Rule E) → Rule E × List (Rule E) → Type 0
  Settled r rs x = Before x.0 r × All (Before x.0) x.1 × Permᴰ (x.0 ∷ x.1) (r ∷ rs)

  exchange-Settled : (r : Rule E) (rs : List (Rule E)) → Settled r rs (exchange E r rs)
  unfolding exchange
  exchange-Settled r [] = (omega arith, tt, Permᴰ.refl (r ∷ []))
  exchange-Settled r (s ∷ rest) =
      go (later E r s) refl (exchange-Settled s rest) (exchange-Settled r rest)
    where
      go :
          (swap : Bool)
          → later E r s ≡ swap
          → Settled s rest (exchange E s rest)
          → Settled r rest (exchange E r rest)
          → let x = exchange E (if swap then s else r) rest in
            Settled r (s ∷ rest) (x.0, (if swap then r else s) ∷ x.1)
      go true e (b, all, p) _ = (
        omega (tests, b, e),
        (omega (tests, b, e), all),
        Permᴰ.trans (Permᴰ.swap refl refl) (Permᴰ.cons refl p),
      )
      go false e _ (b, all, p) = (
        b,
        (omega (tests, b, e), all),
        Permᴰ.trans (Permᴰ.swap refl refl) (Permᴰ.trans (Permᴰ.cons refl p) (Permᴰ.swap refl refl)),
      )

  length-exchange : (r : Rule E) (rs : List (Rule E)) → length (exchange E r rs).1 ≡ length rs
  unfolding exchange
  length-exchange r [] = refl
  length-exchange r (s ∷ rest) = omega (arith, length-exchange (if later E r s then s else r) rest)

  sort_rounds-IsSorted :
      (n : ℕ) (rs : List (Rule E))
      → length rs ≤ n + 1
      → IsSorted (sort_rounds E n rs) × Permᴰ (sort_rounds E n rs) rs
  unfolding sort_rounds
  sort_rounds-IsSorted zero [] h = (tt, Permᴰ.refl [])
  sort_rounds-IsSorted zero (r ∷ []) h = ((tt, tt), Permᴰ.refl (r ∷ []))
  sort_rounds-IsSorted zero (r ∷ s ∷ rs) h = absurd (omega arith)
  sort_rounds-IsSorted (suc n) [] h = (tt, Permᴰ.refl [])
  sort_rounds-IsSorted (suc n) (r ∷ rs) h =
      let x = exchange E r rs in
      let (b, all, p) = exchange-Settled r rs in
      let (sorted, q) = sort_rounds-IsSorted n x.1 (omega (arith, length-exchange r rs)) in
      ((All-of_Permᴰ (Before x.0) q all, sorted), Permᴰ.trans (Permᴰ.cons refl q) p)

  pub sort_rules-IsSorted :
      (rs : List (Rule E)) → IsSorted (sort_rules E rs) × Permᴰ (sort_rules E rs) rs
  unfolding sort_rules
  sort_rules-IsSorted rs = sort_rounds-IsSorted (length rs - 1) rs (omega arith)

  insert_rule-Before :
      (p r : Rule E) (rs : List (Rule E))
      → Before p r
      → All (Before p) rs
      → All (Before p) (insert_rule E r rs)
  unfolding insert_rule
  insert_rule-Before p r [] b h = (b, tt)
  insert_rule-Before p r (s ∷ rs) b (h, hs) = elim (Bool-cases (ltb_ℤ r.priority s.priority)) [
    | inl first ↦ rw first (b, (h, hs))
    | inr on ↦ rw on (h, insert_rule-Before p r rs b hs)
  ]

  pub insert_rule-IsSorted :
      (r : Rule E) (rs : List (Rule E)) → IsSorted rs → IsSorted (insert_rule E r rs)
  unfolding insert_rule
  insert_rule-IsSorted r [] h = (tt, tt)
  insert_rule-IsSorted r (s ∷ rs) (h, hs) = elim (Bool-cases (ltb_ℤ r.priority s.priority)) [
    | inl first ↦ rw first (
      (omega (tests, first), All-map (Before s) (Before r) rs (λ t b. omega (tests, b, first)) h),
      (h, hs),
    )
    | inr on ↦ rw on (insert_rule-Before s r rs (omega (tests, on)) h, insert_rule-IsSorted r rs hs)
  ]

  pub keep-IsSorted : (p : Rule E → Bool) (rs : List (Rule E)) → IsSorted rs → IsSorted (keep p rs)
  keep-IsSorted p [] h = tt
  keep-IsSorted p (r ∷ rs) (h, hs) = elim (Bool-cases (p r)) [
    | inl in_ ↦ rw in_ (All-keep (Before r) p rs h, keep-IsSorted p rs hs)
    | inr out ↦ rw out (keep-IsSorted p rs hs)
  ]
