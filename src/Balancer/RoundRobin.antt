-- ===== src/Balancer/RoundRobin.antt =====
-- `RoundRobin` of loadbalancer.go.
use native.Mathlib.Nat.{mod-lt, mod-eq_of_lt, mod-add-mod, add-mod_right}
use native.Mathlib.Decide.{ℕ_discrete}
use mcp_bridge.Prelude.{
  All-In, get_elem?-lt, Option-cases, ap, ℕ, zero, suc, ◌+◌, ◌-◌, ◌%◌, ◌^◌, ◌≤◌, ◌<◌, ◌≡◌, refl,
  ◌⊎◌, inl, inr, Bool, true, false, Option, none, some, List, [], ◌∷◌, ◌==◌, arith, if◌then◌else◌,
  length, get_elem?, All, In, leb, tests, get_elem?-some, In-get_elem?, All-of_In, sym, ◌∙◌, subst,
  Bool-cases,
}
use mcp_bridge.Balancer.{Endpoint, is_healthy, bump, scan}

pub record RoundRobin : Type 0 where
  pub endpoints : List Endpoint
  pub current : ℕ  -- uint64

unfoldable pub new_round_robin : List Endpoint → RoundRobin
new_round_robin eps = record { endpoints = eps; current = 0 }

unfoldable pub next : RoundRobin → RoundRobin × Option Endpoint
unfolding scan
next rr = if length rr.endpoints == 0 then (rr, none) else (
  record rr { current = bump rr.current },
  scan is_healthy rr.endpoints (bump rr.current) 0 (length rr.endpoints),
)

unfoldable pub update_endpoints : RoundRobin → List Endpoint → RoundRobin
update_endpoints rr eps = record rr { endpoints = eps }

-- The loop, whatever it tests.
module _ (pass : Endpoint → Bool) (eps : List Endpoint) (start : ℕ) where
  abbrev index : ℕ → ℕ
  index i = (start + i) % 2 ^ 64 % length eps

  scan_step :
      (i rounds : ℕ) (a : Endpoint)
      → get_elem? eps (index i) ≡ some a
      → scan pass eps start i (suc rounds)
        ≡ (if pass a then some a else scan pass eps start (i + 1) rounds)
  unfolding scan
  scan_step i rounds a e = ground arith

  scan_found :
      (i rounds : ℕ) (ep : Endpoint)
      → 0 < length eps
      → scan pass eps start i rounds ≡ some ep
      → In ep eps × (pass ep ≡ true)
  unfolding scan
  scan_found i zero ep h e = cc
  scan_found i (suc rounds) ep h e =
      let (a, at, m) = get_elem?-some eps (index i) (mod-lt ((start + i) % 2 ^ 64) h) in
      found a m (sym (scan_step i rounds a at) ∙ e) (scan_found (i + 1) rounds ep h)
    where
      found :
          (a : Endpoint)
          → In a eps
          → (if pass a then some a else scan pass eps start (i + 1) rounds) ≡ some ep
          → (scan pass eps start (i + 1) rounds ≡ some ep → In ep eps × (pass ep ≡ true))
          → In ep eps × (pass ep ≡ true)
      found a m e rec = elim (Bool-cases (pass a)) [
        | inl good ↦
            let same : a ≡ ep = ground arith in
            (subst (λ x. In x eps) same m, subst (λ x. pass x ≡ true) same good)
        | inr bad ↦ rec (rw bad at e)
      ]

  tail_none :
      (i rounds : ℕ)
      → 0 < length eps
      → scan pass eps start i (suc rounds) ≡ none
      → scan pass eps start (i + 1) rounds ≡ none
  tail_none i rounds h e =
      let (a, at, m) = get_elem?-some eps (index i) (mod-lt ((start + i) % 2 ^ 64) h) in
      goes_on (pass a) a (sym (scan_step i rounds a at) ∙ e)
    where
      goes_on :
          (b : Bool) (a : Endpoint)
          → (if b then some a else scan pass eps start (i + 1) rounds) ≡ none
          → scan pass eps start (i + 1) rounds ≡ none
      goes_on true a e = cc
      goes_on false a e = e

  -- A loop that finds nothing has looked at each of its indices.
  scan-none :
      (i rounds m : ℕ) (a : Endpoint)
      → scan pass eps start i rounds ≡ none
      → i ≤ m
      → m < i + rounds
      → get_elem? eps (index m) ≡ some a
      → pass a ≡ false
  scan-none i zero m a e l h g = absurd (omega arith)
  scan-none i (suc rounds) m a e l h g = elim (ℕ_discrete i m) [
    | yes same ↦
        let here = scan_step i rounds a (ap (λ t. get_elem? eps (index t)) same ∙ g) in
        missed (sym here ∙ e)
    | no apart ↦
        scan-none (i + 1) rounds m a
          (tail_none i rounds (omega (arith, get_elem?-lt eps (index m) a g)) e) (omega arith)
          (omega arith) g
  ]
    where
      missed :
          (if pass a then some a else scan pass eps start (i + 1) rounds) ≡ none → pass a ≡ false
      missed e = ground arith

-- Every index below `n` is met within `n` steps from any start.
covers : (n start j : ℕ) → j < n → (k : ℕ) × (k < n) × ((start + k) % n ≡ j)
covers n start j h = elim (Bool-cases (leb (start % n) j)) [
  | inl up ↦ (
    j - start % n,
    omega tests,
    sym (mod-add-mod start n (j - start % n)) ∙ ap (λ t. t % n) (omega tests) ∙ mod-eq_of_lt h,
  )
  | inr down ↦ (
    j + n - start % n,
    omega tests,
    sym (mod-add-mod start n (j + n - start % n))
        ∙ ap (λ t. t % n) {y = j + n} (omega (tests, mod-lt start {m = n}))
        ∙ add-mod_right j n
        ∙ mod-eq_of_lt h,
  )
]

-- Where the counter does not wrap during the loop, the loop finds an endpoint that passes, or none
-- of them does.
pub scan_complete :
    (pass : Endpoint → Bool) (eps : List Endpoint) (start : ℕ)
    → 0 < length eps
    → start + length eps ≤ 2 ^ 64
    → ((ep : Endpoint) × (scan pass eps start 0 (length eps) ≡ some ep)
        × In ep eps
        × (pass ep ≡ true))
      ⊎ ((scan pass eps start 0 (length eps) ≡ none) × All (λ ep. pass ep ≡ false) eps)
scan_complete pass eps start pos fits = elim (Option-cases (scan pass eps start 0 (length eps))) [
  | inr (ep, e) ↦
      let (m, t) = scan_found pass eps start 0 (length eps) ep pos e in inl (ep, e, m, t)
  | inl e ↦ inr (e, All-of_In (λ ep. pass ep ≡ false) eps (λ ep m. ignored e ep m))
]
  where
    ignored :
        scan pass eps start 0 (length eps) ≡ none → (ep : Endpoint) → In ep eps → pass ep ≡ false
    ignored e ep m =
        let (j, h, at) = In-get_elem? eps ep m in
        let (k, hk, hit) = covers (length eps) start j h in
        scan-none pass eps start 0 (length eps) k ep e (omega arith) (omega arith) (
          ap (λ t. get_elem? eps (t % length eps)) (mod-eq_of_lt (omega arith))
          ∙ ap (get_elem? eps) hit
          ∙ at)

-- What `Next` may return.
abbrev pub Chosen : List Endpoint → Option Endpoint → Type 0
Chosen eps r =
    ((ep : Endpoint) × (r ≡ some ep) × In ep eps × (is_healthy ep ≡ true))
    ⊎ ((r ≡ none) × All (λ ep. is_healthy ep ≡ false) eps)

next_nonempty :
    (rr : RoundRobin)
    → 0 < length rr.endpoints
    → next rr ≡ (
      record rr { current = bump rr.current },
      scan is_healthy rr.endpoints (bump rr.current) 0 (length rr.endpoints),
    )
unfolding next
next_nonempty rr h = ground arith

next_of :
    (eps : List Endpoint) (c : ℕ)
    → bump c + length eps ≤ 2 ^ 64
    → let r = next (record { endpoints = eps; current = c }) in
      (r.0.endpoints ≡ eps) × Chosen eps r.1
next_of [] c fits = unfold next in (refl, inr (refl, tt))
next_of (ep ∷ eps) c fits =
    rw (next_nonempty (record { endpoints = ep ∷ eps; current = c }) (omega arith))
      (refl, scan_complete is_healthy (ep ∷ eps) (bump c) (omega arith) fits)

-- `Next` returns a healthy endpoint of the list if there is one, and nil only if there is none
-- (where the counter is so far from 2^64 that it does not wrap during the loop); the endpoints stay
-- as they are.
pub next-healthy :
    (rr : RoundRobin)
    → bump rr.current + length rr.endpoints ≤ 2 ^ 64
    → ((next rr).0.endpoints ≡ rr.endpoints) × Chosen rr.endpoints (next rr).1
next-healthy rr fits = next_of rr.endpoints rr.current fits

-- The endpoint that `k` calls of `Next` and one more return.
abbrev pub nth_next : ℕ → RoundRobin → Option Endpoint
nth_next zero rr = (next rr).1
nth_next (suc k) rr = nth_next k (next rr).0

module _ (eps : List Endpoint) (pos : 0 < length eps)
    (h : All (λ ep. is_healthy ep ≡ true) eps) where
  scan_healthy :
      (start rounds : ℕ)
      → start < 2 ^ 64
      → scan is_healthy eps start 0 (suc rounds) ≡ get_elem? eps (start % length eps)
  scan_healthy start rounds fits =
      let (a, at, m) = get_elem?-some eps (start % length eps) (mod-lt start pos) in
      scan_step is_healthy eps start 0 rounds a
        (ap (λ t. get_elem? eps (t % length eps)) (omega arith) ∙ at)
      ∙ rw (All-In (λ ep. is_healthy ep ≡ true) eps a h m) (sym at)

  nth_next_of :
      (k c : ℕ)
      → c + 1 + k < 2 ^ 64
      → nth_next k (record { endpoints = eps; current = c })
        ≡ get_elem? eps ((c + 1 + k) % length eps)
  nth_next_of zero c fits =
      ap (λ r. r.1) (next_nonempty (record { endpoints = eps; current = c }) pos)
      ∙ ap (scan is_healthy eps (bump c) 0) (omega arith)
      ∙ scan_healthy (bump c) (length eps - 1) (omega arith)
      ∙ ap (λ t. get_elem? eps (t % length eps)) (omega arith)
  nth_next_of (suc k) c fits =
      ap (λ r. nth_next k r.0) (next_nonempty (record { endpoints = eps; current = c }) pos)
      ∙ nth_next_of k (bump c) (omega arith)
      ∙ ap (λ t. get_elem? eps (t % length eps)) (omega arith)

-- While all endpoints are healthy and the counter does not wrap, the call after `k` others returns
-- the endpoint at `current + 1 + k` modulo their number.
pub nth_next_rotates :
    (rr : RoundRobin) (k : ℕ)
    → 0 < length rr.endpoints
    → All (λ ep. is_healthy ep ≡ true) rr.endpoints
    → rr.current + 1 + k < 2 ^ 64
    → nth_next k rr ≡ get_elem? rr.endpoints ((rr.current + 1 + k) % length rr.endpoints)
nth_next_rotates rr k pos h fits = nth_next_of rr.endpoints pos h k rr.current fits
