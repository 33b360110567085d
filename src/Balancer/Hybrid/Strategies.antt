-- ===== src/Balancer/Hybrid/Strategies.antt =====
-- What each strategy of the hybrid balancer selects from a group.
use native.Mathlib.Nat.{mod-lt}
use mcp_bridge.Prelude.{
  ◌≢◌, ◌||◌, ℕ, ◌+◌, ◌%◌, ◌^◌, ◌≤◌, ◌<◌, ◌≡◌, refl, sym, ap, ◌∙◌, subst, ◌⊎◌, inl, inr, Bool, true,
  false, Option, none, some, List, [], ◌∷◌, ◌++◌, arith, length, keep, All, In, Bool-cases, In-keep,
  get_elem?-some, All-In, All-of_In, All-append, String, str_eq, tests, ltb, ◌&&◌, ◌==◌,
  if◌then◌else◌,
}
use mcp_bridge.Balancer.{Endpoint, bump, scan, effective_weight}
use mcp_bridge.Balancer.Counts.{count_of}
use mcp_bridge.Balancer.LeastConnections.{max_int64}
use mcp_bridge.Balancer.RoundRobin.{scan_complete}
use mcp_bridge.Balancer.Hybrid.{
  Hybrid, eligible, next_round_robin, next_least_connections, next_weighted, apply_strategy,
  candidates, among, at_position, or_first, total_weight_of,
}

-- An eligible endpoint of the list, or none when none is.
abbrev pub Picks : Hybrid → List Endpoint → Option Endpoint → Type 0
Picks h eps r =
    ((ep : Endpoint) × (r ≡ some ep) × In ep eps × (eligible h ep ≡ true))
    ⊎ ((r ≡ none) × All (λ ep. eligible h ep ≡ false) eps)

-- The conditions on the numbers: the counter does not wrap in a loop over this list, and the counts
-- are int64 values.
pub record Fits (h : Hybrid) (eps : List Endpoint) (c : ℕ) : Type 0 where
  pub counter : c + 1 + length eps ≤ 2 ^ 64
  pub counts : (k : String) → count_of h.connections k ≤ max_int64

pub next_round_robin-Picks :
    (h : Hybrid) (eps : List Endpoint) (c : ℕ)
    → Fits h eps c
    → Picks h eps (next_round_robin h eps c).1
unfolding next_round_robin
next_round_robin-Picks h [] c f = inr (refl, tt)
next_round_robin-Picks h (ep ∷ eps) c f =
    subst (Picks h (ep ∷ eps)) (sym looped)
      (scan_complete (eligible h) (ep ∷ eps) (bump c) (omega arith) (omega (arith, f.counter)))
  where
    looped :
        (next_round_robin h (ep ∷ eps) c).1
        ≡ scan (eligible h) (ep ∷ eps) (bump c) 0 (length (ep ∷ eps))
    looped = ground arith

keep_nil :
    (h : Hybrid) (eps : List Endpoint)
    → keep (eligible h) eps ≡ []
    → All (λ ep. eligible h ep ≡ false) eps
keep_nil h [] e = tt
keep_nil h (ep ∷ eps) e = ground (arith, keep_nil h eps)

-- The loop below the total weight ends at an endpoint of the list.
at_position-In :
    (eps : List Endpoint) (p w : ℕ)
    → w ≤ p
    → p < w + total_weight_of eps
    → (ep : Endpoint) × (at_position p w eps ≡ some ep) × In ep eps
unfolding at_position total_weight_of
at_position-In [] p w l h = absurd (omega arith)
at_position-In (x ∷ eps) p w l h = elim (Bool-cases (ltb p (w + effective_weight x))) [
  | inl hit ↦ rw hit (x, refl, inl refl)
  | inr miss ↦
      let (ep, e, m) = at_position-In eps p (w + effective_weight x) (omega tests) (omega arith) in
      rw miss (ep, e, inr m)
]

total_weight_of-pos : (ep : Endpoint) (eps : List Endpoint) → 0 < total_weight_of (ep ∷ eps)
unfolding total_weight_of effective_weight
total_weight_of-pos ep eps = ground arith

-- The weighted choice from the endpoints that were kept.
weighted_choice : List Endpoint → ℕ → ℕ × Option Endpoint
weighted_choice kept c =
    if length kept == 0 || total_weight_of kept == 0
    then (c, none)
    else (bump c, or_first (at_position (bump c % total_weight_of kept) 0 kept) kept)

weighted_choice-In :
    (ep : Endpoint) (eps : List Endpoint) (c : ℕ)
    → (a : Endpoint) × ((weighted_choice (ep ∷ eps) c).1 ≡ some a) × In a (ep ∷ eps)
unfolding weighted_choice or_first
weighted_choice-In ep eps c =
    let pos = total_weight_of-pos ep eps in
    let (a, e, m) =
      at_position-In (ep ∷ eps) (bump c % total_weight_of (ep ∷ eps)) 0 (omega arith)
        (omega (arith, mod-lt (bump c) pos)) in
    (a, ground (arith, pos, e), m)

next_weighted-Picks :
    (h : Hybrid) (eps : List Endpoint) (c : ℕ) → Picks h eps (next_weighted h eps c).1
unfolding next_weighted weighted_choice
next_weighted-Picks h eps c = from_kept (keep (eligible h) eps) refl
  where
    from_kept :
        (kept : List Endpoint)
        → keep (eligible h) eps ≡ kept
        → Picks h eps (weighted_choice (keep (eligible h) eps) c).1
    from_kept [] e = inr (ap (λ k. (weighted_choice k c).1) e, keep_nil h eps e)
    from_kept (ep ∷ rest) e =
        let (a, sel, m) = weighted_choice-In ep rest c in
        let (i, t) = In-keep (eligible h) eps a (subst (In a) (sym e) m) in
        inl (a, ap (λ k. (weighted_choice k c).1) e ∙ sel, i, t)

-- The candidates are eligible endpoints of the list.
abbrev Candidate : Hybrid → List Endpoint → Endpoint → Type 0
Candidate h eps ep = In ep eps × (eligible h ep ≡ true)

-- One turn of the loop, whatever the tests on the counts say.
abbrev turn : Bool → Bool → Endpoint → List Endpoint → List Endpoint
turn fewer same ep cands = if fewer then ep ∷ [] else if same then cands ++ ep ∷ [] else cands

turn-All :
    (P : Endpoint → Type 0) (t x y : Bool) (ep : Endpoint) (cands : List Endpoint)
    → (t ≡ true → P ep)
    → All P cands
    → All P (turn (t && x) (t && y) ep cands)
turn-All P false x y ep cands h a = a
turn-All P true true y ep cands h a = (h refl, tt)
turn-All P true false true ep cands h a = All-append P cands (ep ∷ []) a (h refl, tt)
turn-All P true false false ep cands h a = a

candidates-All :
    (h : Hybrid) (all eps cands : List Endpoint) (m : ℕ)
    → All (λ ep. In ep all) eps
    → All (Candidate h all) cands
    → All (Candidate h all) (candidates h eps cands m)
unfolding candidates
candidates-All h all [] cands m i a = a
candidates-All h all (ep ∷ eps) cands m i a = candidates-All h all eps _ _ i.1 (
    turn-All (Candidate h all) (eligible h ep) (ltb (count_of h.connections ep.address) m)
      (count_of h.connections ep.address == m) ep cands (λ t. (i.0, t)) a)

turn-ne-nil :
    (fewer same : Bool) (ep : Endpoint) (cands : List Endpoint)
    → cands ≢ []
    → turn fewer same ep cands ≢ []
turn-ne-nil true same ep cands h e = cc
turn-ne-nil false false ep cands h e = h e
turn-ne-nil false true ep [] h e = h refl
turn-ne-nil false true ep (x ∷ cands) h e = cc

-- Once there is a candidate there stays one.
candidates_stay :
    (h : Hybrid) (eps cands : List Endpoint) (m : ℕ) → cands ≢ [] → candidates h eps cands m ≢ []
unfolding candidates
candidates_stay h [] cands m n e = n e
candidates_stay h (ep ∷ eps) cands m n e =
    candidates_stay h eps
      (turn (eligible h ep && ltb (count_of h.connections ep.address) m)
        (eligible h ep && count_of h.connections ep.address == m) ep cands)
      _ (turn-ne-nil _ _ ep cands n) e

-- The first eligible endpoint becomes a candidate.
turn_starts :
    (t : Bool) (n m : ℕ) (ep : Endpoint)
    → t ≡ true
    → n ≤ m
    → turn (t && ltb n m) (t && n == m) ep [] ≢ []
turn_starts t n m ep h le e = ground arith

-- With no candidate in the end, nothing was eligible.
candidates_nil :
    (h : Hybrid) (eps : List Endpoint)
    → ((k : String) → count_of h.connections k ≤ max_int64)
    → candidates h eps [] max_int64 ≡ []
    → All (λ ep. eligible h ep ≡ false) eps
unfolding candidates
candidates_nil h [] f e = tt
candidates_nil h (ep ∷ eps) f e = elim (Bool-cases (eligible h ep)) [
  | inl good ↦ absurd (
      candidates_stay h eps _ _
        (turn_starts (eligible h ep) (count_of h.connections ep.address) max_int64 ep good
          (f ep.address))
        e)
  | inr bad ↦ (bad, candidates_nil h eps f (rw bad at e))
]

among-In :
    (cands : List Endpoint) (c : ℕ)
    → cands ≢ []
    → (a : Endpoint) × ((among cands c).1 ≡ some a) × In a cands
unfolding among
among-In [] c n = absurd (n refl)
among-In (x ∷ []) c n = (x, refl, inl refl)
among-In (x ∷ y ∷ eps) c n =
    let (a, e, m) =
      get_elem?-some (x ∷ y ∷ eps) (bump c % length (x ∷ y ∷ eps))
        (mod-lt (bump c) (omega arith)) in
    (a, e, m)

among-counter : (cands : List Endpoint) (c : ℕ) → c + 1 < 2 ^ 64 → (among cands c).0 ≤ c + 1
unfolding among
among-counter [] c f = omega arith
among-counter (x ∷ []) c f = omega arith
among-counter (x ∷ y ∷ eps) c f = omega arith

next_least_connections-Picks :
    (h : Hybrid) (eps : List Endpoint) (c : ℕ)
    → ((k : String) → count_of h.connections k ≤ max_int64)
    → Picks h eps (next_least_connections h eps c).1
unfolding next_least_connections
next_least_connections-Picks h eps c f = from_candidates (candidates h eps [] max_int64) refl
  where
    from_candidates :
        (cands : List Endpoint)
        → candidates h eps [] max_int64 ≡ cands
        → Picks h eps (among (candidates h eps [] max_int64) c).1
    from_candidates [] e = inr (ap (λ k. (among k c).1) e, candidates_nil h eps f e)
    from_candidates (x ∷ cands) e =
        let (a, sel, m) = among-In (x ∷ cands) c (λ n. cc) in
        let ok =
          All-In (Candidate h eps) (candidates h eps [] max_int64) a
            (candidates-All h eps eps [] max_int64 (All-of_In (λ ep. In ep eps) eps (λ ep i. i)) tt)
            (subst (In a) (sym e) m) in
        inl (a, ap (λ k. (among k c).1) e ∙ sel, ok.0, ok.1)

-- Whatever the strategy.
pub apply_strategy-Picks :
    (h : Hybrid) (eps : List Endpoint) (c : ℕ)
    → Fits h eps c
    → Picks h eps (apply_strategy h eps c).1
unfolding apply_strategy
apply_strategy-Picks h eps c f = elim (Bool-cases (str_eq h.strategy "least_connections")) [
  | inl least ↦ rw least (next_least_connections-Picks h eps c f.counts)
  | inr other ↦ elim (Bool-cases (str_eq h.strategy "weighted")) [
    | inl weighted ↦ rw (other, weighted) (next_weighted-Picks h eps c)
    | inr robin ↦ rw (other, robin) (next_round_robin-Picks h eps c f)
  ]
]

-- A strategy moves the counter by one step at most.
pub apply_strategy-counter :
    (h : Hybrid) (eps : List Endpoint) (c : ℕ) → c + 1 < 2 ^ 64 → (apply_strategy h eps c).0 ≤ c + 1
unfolding apply_strategy next_round_robin next_weighted next_least_connections
apply_strategy-counter h eps c f = ground (arith, among-counter (candidates h eps [] max_int64) c)
