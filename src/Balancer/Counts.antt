-- ===== src/Balancer/Counts.antt =====
-- The map from addresses to connection counts that two of the balancers keep (`map[string]int64`).
use mcp_bridge.Prelude.{
  ℕ, ◌+◌, ◌-◌, ◌≡◌, refl, Bool, true, false, Option, none, some, List, [], ◌∷◌, String, StrMap,
  find, put, find-put, arith, ltb, if◌then◌else◌, str_eq, eq_iff, Option-cases, inl, inr,
}
use mcp_bridge.Balancer.{Endpoint}

-- `m[k]`, which is 0 where the key is missing.
abbrev value : Option ℕ → ℕ
value none = 0
value (some n) = n

unfoldable pub count_of : StrMap ℕ → String → ℕ
count_of m k = value (find k m)

-- `m[k]++`; a count that is incremented is below the largest int64.
unfoldable pub increment : StrMap ℕ → String → StrMap ℕ
unfolding count_of
increment m k = put k (count_of m k + 1) m

-- The body of `ReleaseConnection`.
unfoldable pub decrement : StrMap ℕ → String → StrMap ℕ
decrement m k = elim (find k m) [
  | none ↦ m
  | some count ↦ if ltb 0 count then put k (count - 1) m else m
]

-- The map that `UpdateEndpoints` builds: the counts of the addresses that stay.
unfoldable pub carry_over : StrMap ℕ → List Endpoint → StrMap ℕ → StrMap ℕ
carry_over old [] new = new
carry_over old (ep ∷ eps) new =
    carry_over old eps
      (elim (find ep.address old) [ none ↦ new | some count ↦ put ep.address count new ])

pub count_of-increment :
    (m : StrMap ℕ) (k j : String)
    → count_of (increment m k) j ≡ (if str_eq k j then count_of m j + 1 else count_of m j)
unfolding increment
count_of-increment m k j = rw find-put (ground (arith, eq_iff k j))

pub count_of-decrement :
    (m : StrMap ℕ) (k j : String)
    → count_of (decrement m k) j ≡ (if str_eq k j then count_of m j - 1 else count_of m j)
unfolding decrement count_of
count_of-decrement m k j = ground (arith, eq_iff k j, find-put k j (count_of m k - 1) m)

-- Some endpoint has the address.
abbrev pub has_address : String → List Endpoint → Bool
has_address k [] = false
has_address k (ep ∷ eps) = if str_eq ep.address k then true else has_address k eps

find-carry_over_into :
    (old new : StrMap ℕ) (eps : List Endpoint) (k : String)
    → find k (carry_over old eps new) ≡ (
        if has_address k eps
        then elim (find k old) [ none ↦ find k new | some c ↦ some c ]
        else find k new)
unfolding carry_over
find-carry_over_into old new [] k = refl
find-carry_over_into old new (ep ∷ eps) k = elim (Option-cases (find ep.address old)) [
  | inl gone ↦ ground (arith, gone, eq_iff ep.address k, find-carry_over_into old new eps k)
  | inr (c, had) ↦ ground (
    arith,
    had,
    eq_iff ep.address k,
    find-carry_over_into old (put ep.address c new) eps k,
    find-put ep.address k c new,
  )
]

-- An address keeps its count exactly if it stays.
pub find-carry_over :
    (old : StrMap ℕ) (eps : List Endpoint) (k : String)
    → find k (carry_over old eps []) ≡ (if has_address k eps then find k old else none)
unfolding find
find-carry_over old eps k = ground (arith, find-carry_over_into old [] eps k)
