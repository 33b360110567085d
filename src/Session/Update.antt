-- ===== src/Session/Update.antt =====
-- Updating a session.
use mcp_bridge.Prelude.{
  ℕ, ◌≡◌, refl, sym, ap, ◌∙◌, Option-cases, ◌⊎◌, Bool, true, false, ◌&&◌, Option, none, some, arith,
  if◌then◌else◌, String, str_eq, eq_iff, StrMap, find, put, find-put, Bool-cases, inl, inr,
}
use mcp_bridge.Session.{
  store_if_known, touch, Session, MemoryManager, lookup, is_expired, update_session,
}
use mcp_bridge.Session.Refinement.{served}

-- The session with a new update time, if there is one.
abbrev pub touched : ℕ → Option Session → Option Session
touched now none = none
touched now (some s) = some (record s { updated_at = now })

-- What `UpdateSession` did at `now`, by the store and the session it gave.
abbrev pub Updated : MemoryManager → Bool → Session → ℕ → MemoryManager × Option Session → Type 0
Updated m shared s now r =
    ((is_expired now s ≡ true)
      × (r.1 ≡ none)
      × ((j : String)
          → lookup r.0 j
            ≡ (if shared && str_eq s.id j then touched now (lookup m j) else lookup m j)))
    ⊎ (((is_expired now s ≡ false)
          × (lookup m s.id ≡ none)
          × (r.1 ≡ none)
          × ((j : String) → lookup r.0 j ≡ lookup m j))
        ⊎ ((is_expired now s ≡ false)
            × ((old : Session) × (lookup m s.id ≡ some old))
            × (r.1 ≡ some (record s { updated_at = now }))
            × ((j : String)
                → lookup r.0 j
                  ≡ (if str_eq s.id j then some (record s { updated_at = now }) else lookup m j))))

abbrev open_store : StrMap Session → MemoryManager
open_store m = record { sessions = some m }

-- The store after the write through the pointer.
abbrev written : StrMap Session → Bool → Session → StrMap Session
written m false s = m
written m true s = elim (find s.id m) [
  | none ↦ m
  | some held ↦ put s.id (record held { updated_at = s.updated_at }) m
]

touch-written :
    (m : StrMap Session) (shared : Bool) (s : Session)
    → touch (open_store m) shared s ≡ open_store (written m shared s)
unfolding touch
touch-written m false s = refl
touch-written m true s = elim (Option-cases (find s.id m)) [
  | inl gone ↦ ground (arith, gone)
  | inr (old, there) ↦ ground (arith, there)
]

find-written :
    (m : StrMap Session) (shared : Bool) (s : Session) (j : String)
    → find j (written m shared s)
      ≡ (if shared && str_eq s.id j then touched s.updated_at (find j m) else find j m)
find-written m false s j = refl
find-written m true s j = elim (Option-cases (find s.id m)) [
  | inl gone ↦ elim (Bool-cases (str_eq s.id j)) [
    | inl same ↦
        let here = sym (ap (λ k. find k m) ((eq_iff s.id j).0 same)) ∙ gone in
        ground (arith, gone, same, here)
    | inr other ↦ ground (arith, gone, other)
  ]
  | inr (old, there) ↦ elim (Bool-cases (str_eq s.id j)) [
    | inl same ↦
        let here = sym (ap (λ k. find k m) ((eq_iff s.id j).0 same)) ∙ there in
        ground
          (arith, there, same, here, find-put s.id j (record old { updated_at = s.updated_at }) m)
    | inr other ↦
        ground (arith, there, other, find-put s.id j (record old { updated_at = s.updated_at }) m)
  ]
]

-- A store that has been closed.
closed :
    (shared : Bool) (s : Session) (now : ℕ)
    → let m : MemoryManager = record { sessions = none } in
      Updated m shared s now (let r = update_session m shared s now in (r.0, served r.1))
unfolding lookup update_session touch store_if_known
closed true s now = elim (Bool-cases (is_expired now s)) [
  | inl old ↦ inl (old, rw old refl, λ j. ground (arith, old))
  | inr fresh ↦ inr (inl (fresh, refl, rw fresh refl, λ j. rw fresh refl))
]
closed false s now = elim (Bool-cases (is_expired now s)) [
  | inl old ↦ inl (old, rw old refl, λ j. rw old refl)
  | inr fresh ↦ inr (inl (fresh, refl, rw fresh refl, λ j. rw fresh refl))
]

module _ (m : StrMap Session) (shared : Bool) (s : Session) (now : ℕ) where
  abbrev s' : Session
  s' = record s { updated_at = now }

  abbrev m' : StrMap Session
  m' = written m shared s'

  abbrev outcome : MemoryManager × Option Session
  outcome = let r = update_session (open_store m) shared s now in (r.0, served r.1)

  expired : is_expired now s ≡ true → outcome ≡ (open_store m', none)
  unfolding update_session
  expired old = rw old (ap (λ t. (t, none)) (touch-written m shared s'))

  stored :
      is_expired now s ≡ false
      → outcome ≡ (let r = store_if_known (open_store m') s' in (r.0, served r.1))
  unfolding update_session
  stored fresh =
      rw fresh
        (ap (λ t. let r = store_if_known t s' in (r.0, served r.1)) (touch-written m shared s'))

  abbrev store_result : MemoryManager × Option Session
  store_result = let r = store_if_known (open_store m') s' in (r.0, served r.1)

  unknown : find s.id m' ≡ none → store_result ≡ (open_store m', none)
  unfolding store_if_known
  unknown e = ground (arith, e)

  replaced :
      (old : Session)
      → find s.id m' ≡ some old
      → store_result ≡ (open_store (put s.id s' m'), some s')
  unfolding store_if_known
  replaced old e = ground (arith, e)

  -- What the map has under the identifier after the write.
  find-m' :
      (j : String)
      → find j m' ≡ (if shared && str_eq s.id j then touched now (find j m) else find j m)
  find-m' j = find-written m shared s' j

  known_or_not : is_expired now s ≡ false → Updated (open_store m) shared s now outcome
  unfolding lookup
  known_or_not fresh = elim (Option-cases (find s.id m)) [
    | inl gone ↦
        let e = stored fresh ∙ unknown (ground (arith, find-m' s.id, gone)) in
        inr (inl (fresh, gone, ap (λ r. r.1) e, λ j. ap (λ r. lookup r.0 j) e ∙ untouched gone j))
    | inr (old, there) ↦
        let (held, here) = still there in
        let e = stored fresh ∙ replaced held here in
        inr (
          inr (
            fresh,
            (old, there),
            ap (λ r. r.1) e,
            λ j. ap (λ r. lookup r.0 j) e ∙ find-put s.id j s' m' ∙ other j,
          ))
  ]
    where
      untouched : find s.id m ≡ none → (j : String) → find j m' ≡ find j m
      untouched gone j = elim (Bool-cases (str_eq s.id j)) [
        | inl same ↦
            let here = sym (ap (λ k. find k m) ((eq_iff s.id j).0 same)) ∙ gone in
            ground (arith, find-m' j, same, here)
        | inr apart ↦ ground (arith, find-m' j, apart)
      ]

      still :
          {old : Session} → find s.id m ≡ some old → (held : Session) × (find s.id m' ≡ some held)
      still {old} there = elim (Bool-cases (shared && str_eq s.id s.id)) [
        | inl yes_shared ↦
            (record old { updated_at = now }, ground (arith, find-m' s.id, yes_shared, there))
        | inr apart ↦ (old, ground (arith, find-m' s.id, apart, there))
      ]

      other :
          (j : String)
          → (if str_eq s.id j then some s' else find j m')
            ≡ (if str_eq s.id j then some s' else find j m)
      other j = ground (arith, find-m' j)

  all_ways : Updated (open_store m) shared s now outcome
  unfolding lookup
  all_ways = elim (Bool-cases (is_expired now s)) [
    | inl old ↦
        let e = expired old in inl (old, ap (λ r. r.1) e, λ j. ap (λ r. lookup r.0 j) e ∙ find-m' j)
    | inr fresh ↦ known_or_not fresh
  ]

-- `UpdateSession` of a session that is the object the store holds under its identifier (`shared`),
-- or not: an expired one is refused, and the store is as before but for the update time of that
-- object, if it is shared; one whose identifier is not in the store is refused and the store is as
-- before; otherwise the session is stored with the new update time under its identifier, and no
-- other changes.
pub update_session_lem :
    (m : MemoryManager) (shared : Bool) (s : Session) (now : ℕ)
    → Updated m shared s now (let r = update_session m shared s now in (r.0, served r.1))
update_session_lem m shared s now = by_map m.sessions
  where
    by_map :
        (o : Option (StrMap Session))
        → Updated
            (record { sessions = o })
            shared
            s
            now
            (let r = update_session (record { sessions = o }) shared s now in (r.0, served r.1))
    by_map none = closed shared s now
    by_map (some sessions) = all_ways sessions shared s now
