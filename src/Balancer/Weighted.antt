-- ===== src/Balancer/Weighted.antt =====
-- `Weighted` of loadbalancer.go.
use native.Mathlib.Nat.{mod-lt}
use mcp_bridge.Prelude.{
  subst, ℕ, ◌+◌, ◌%◌, ◌≤◌, ◌<◌, ◌≡◌, refl, sym, ap, ◌∙◌, ◌⊎◌, inl, inr, ◌&&◌, ◌||◌, Option, none,
  some, List, [], ◌∷◌, ◌++◌, map, ◌==◌, arith, ltb, if◌then◌else◌, length, keep, Bool-cases,
}
use mcp_bridge.Balancer.{Endpoint, is_healthy, bump, effective_weight}

pub record Weighted : Type 0 where
  pub endpoints : List Endpoint
  pub weights : List ℕ
  pub total_weight : ℕ
  pub current : ℕ  -- uint64

abbrev pub sum : List ℕ → ℕ
sum [] = 0
sum (w ∷ ws) = w + sum ws

-- The loop of `calculateWeights`, which writes over the weights from the first one on and adds up
-- `totalWeight`; `none` is the panic of writing past their end.
weigh : List Endpoint → List ℕ → Option (List ℕ × ℕ)
weigh [] ws = some (ws, 0)
weigh (ep ∷ eps) [] = none
weigh (ep ∷ eps) (w ∷ ws) = elim (weigh eps ws) [
  | none ↦ none
  | some (ws', total) ↦ some (effective_weight ep ∷ ws', effective_weight ep + total)
]

unfoldable pub calculate_weights : Weighted → Option Weighted
unfolding weigh
calculate_weights w = elim (weigh w.endpoints w.weights) [
  | none ↦ none
  | some (ws, total) ↦ some (record w { weights = ws; total_weight = total })
]

-- `make([]int, n)`
zeros : List Endpoint → List ℕ
zeros [] = []
zeros (ep ∷ eps) = 0 ∷ zeros eps

unfoldable pub new_weighted : List Endpoint → Option Weighted
unfolding calculate_weights zeros
new_weighted eps =
    calculate_weights
      (record { endpoints = eps; weights = zeros eps; total_weight = 0; current = 0 })

-- The selection loop of `Next`: `current_weight` is the weight of the healthy endpoints passed.
select : ℕ → ℕ → List Endpoint → List ℕ → Option Endpoint
select position current_weight (ep ∷ eps) (w ∷ ws) =
    let here = current_weight + w in
    let rest = select position (if is_healthy ep then here else current_weight) eps ws in
    if is_healthy ep && ltb position here then some ep else rest
select position current_weight _ _ = none

-- The second loop of `Next`.
first_healthy : List Endpoint → Option Endpoint
first_healthy [] = none
first_healthy (ep ∷ eps) = if is_healthy ep then some ep else first_healthy eps

or_else : Option Endpoint → Option Endpoint → Option Endpoint
or_else none o = o
or_else (some ep) o = some ep

unfoldable pub next : Weighted → Weighted × Option Endpoint
unfolding select first_healthy or_else
next w = if length w.endpoints == 0 || w.total_weight == 0 then (w, none) else (
  record w { current = bump w.current },
  or_else (select (bump w.current % w.total_weight) 0 w.endpoints w.weights)
      (first_healthy w.endpoints),
)

unfoldable pub update_endpoints : Weighted → List Endpoint → Option Weighted
unfolding calculate_weights zeros
update_endpoints w eps = calculate_weights (record w { endpoints = eps; weights = zeros eps })

-- The weights that the balancer holds are those of its endpoints.
pub record IsWeighed (w : Weighted) : Type 0 where
  pub each : w.weights ≡ map effective_weight w.endpoints
  pub total : w.total_weight ≡ sum w.weights

weigh-zeros :
    (eps : List Endpoint)
    → weigh eps (zeros eps) ≡ some (map effective_weight eps, sum (map effective_weight eps))
unfolding weigh zeros
weigh-zeros [] = refl
weigh-zeros (ep ∷ eps) = rw (weigh-zeros eps) refl

-- Each endpoint's weight, and 1 for one that is not positive.
abbrev pub AreWeights : List Endpoint → List ℕ → Type 0
AreWeights [] [] = Unit
AreWeights (ep ∷ eps) (w ∷ ws) =
    (((0 < ep.weight) × (w ≡ ep.weight)) ⊎ ((ep.weight ≡ 0) × (w ≡ 1))) × AreWeights eps ws
AreWeights _ _ = ⊥

-- A balancer over these endpoints with their weights.
abbrev pub WeighedOver : List Endpoint → ℕ → Option Weighted → Type 0
WeighedOver eps current o =
    (w : Weighted) × (o ≡ some w)
    × (w.endpoints ≡ eps)
    × (w.current ≡ current)
    × AreWeights eps w.weights
    × (w.total_weight ≡ sum w.weights)
    × IsWeighed w

weights-AreWeights : (eps : List Endpoint) → AreWeights eps (map effective_weight eps)
unfolding effective_weight
weights-AreWeights [] = tt
weights-AreWeights (ep ∷ eps) = (ground arith, weights-AreWeights eps)

calculate_weights-WeighedOver :
    (eps : List Endpoint) (total current : ℕ)
    → WeighedOver eps current (
        calculate_weights (record {
          endpoints = eps;
          weights = zeros eps;
          total_weight = total;
          current = current;
        }))
unfolding calculate_weights
calculate_weights-WeighedOver eps total current = (
  _,
  rw (weigh-zeros eps, calculate_weights) refl,
  refl,
  refl,
  weights-AreWeights eps,
  refl,
  record { each = refl; total = refl },
)

-- `NewWeighted` and `UpdateEndpoints`, whatever the balancer was, write within the bounds of the
-- weights and leave a balancer over the endpoints passed, with the weight of each, 1 for one that
-- is not positive, and with their sum; the counter is 0 in a new one and kept by the other.
pub weights_in_step :
    (eps : List Endpoint) (w : Weighted)
    → WeighedOver eps 0 (new_weighted eps) × WeighedOver eps w.current (update_endpoints w eps)
unfolding new_weighted update_endpoints
weights_in_step eps w = (
  calculate_weights-WeighedOver eps 0 0,
  calculate_weights-WeighedOver eps w.total_weight w.current,
)

abbrev pub weight_of : List Endpoint → ℕ
weight_of eps = sum (map effective_weight eps)

-- The endpoint in whose share of the line, laid end to end from `base`, the position lies.
abbrev pub Share : List Endpoint → ℕ → ℕ → Endpoint → Type 0
Share hs base position ep =
    (pre post : List Endpoint) × (hs ≡ pre ++ ep ∷ post)
    × (base + weight_of pre ≤ position)
    × (position < base + weight_of pre + effective_weight ep)

-- Where a position falls among the healthy endpoints.
abbrev Falls : List Endpoint → ℕ → ℕ → Option Endpoint → Type 0
Falls hs base position r =
    ((ep : Endpoint) × (r ≡ some ep) × Share hs base position ep)
    ⊎ ((r ≡ none) × (base + weight_of hs ≤ position))

shift :
    (ep : Endpoint) (hs : List Endpoint) (base position : ℕ) {r : Option Endpoint}
    → Falls hs (base + effective_weight ep) position r
    → Falls (ep ∷ hs) base position r
shift ep hs base position (inl (e, s, (pre, post, eq, lo, hi))) =
    inl (e, s, (ep ∷ pre, post, ap (λ xs. ep ∷ xs) eq, omega arith, omega arith))
shift ep hs base position (inr (s, lo)) = inr (s, omega arith)

select-Falls :
    (position base : ℕ) (eps : List Endpoint)
    → base ≤ position
    → Falls
        (keep is_healthy eps)
        base
        position
        (select position base eps (map effective_weight eps))
unfolding select
select-Falls position base [] h = inr (refl, omega arith)
select-Falls position base (ep ∷ eps) h = elim (Bool-cases (is_healthy ep)) [
  | inr sick ↦ rw (sick, select) (select-Falls position base eps h)
  | inl well ↦ elim (Bool-cases (ltb position (base + effective_weight ep))) [
    | inl hit ↦
        rw (well, hit) (inl (ep, refl, ([], keep is_healthy eps, refl, omega arith, ground arith)))
    | inr miss ↦
        rw (well, miss)
          (shift ep (keep is_healthy eps) base position
            (select-Falls position (base + effective_weight ep) eps (ground arith)))
  ]
]

first_healthy-head :
    (eps : List Endpoint)
    → ((keep is_healthy eps ≡ []) × (first_healthy eps ≡ none))
      ⊎ ((ep : Endpoint) × (rest : List Endpoint) × (keep is_healthy eps ≡ ep ∷ rest)
          × (first_healthy eps ≡ some ep))
unfolding first_healthy
first_healthy-head [] = inl (refl, refl)
first_healthy-head (ep ∷ eps) = elim (Bool-cases (is_healthy ep)) [
  | inl well ↦ rw well (inr (ep, keep is_healthy eps, refl, refl))
  | inr sick ↦ rw sick (first_healthy-head eps)
]

-- What `Next` may return at a position, of the healthy endpoints `hs`.
abbrev pub Picked : List Endpoint → ℕ → Option Endpoint → Type 0
Picked hs position r =
    ((ep : Endpoint) × (r ≡ some ep) × Share hs 0 position ep)
    ⊎ ((ep : Endpoint) × (rest : List Endpoint) × (hs ≡ ep ∷ rest)
        × (r ≡ some ep)
        × (weight_of hs ≤ position))
    ⊎ ((hs ≡ []) × (r ≡ none))

picks :
    (eps : List Endpoint) (position : ℕ)
    → Picked
        (keep is_healthy eps)
        position
        (or_else (select position 0 eps (map effective_weight eps)) (first_healthy eps))
unfolding or_else
picks eps position = elim (select-Falls position 0 eps (omega arith)) [
  | inl (ep, e, share) ↦ inl (ep, ap (λ o. or_else o (first_healthy eps)) e, share)
  | inr (e, past) ↦ elim (first_healthy-head eps) [
    | inl (gone, f) ↦ inr (inr (gone, ap (λ o. or_else o (first_healthy eps)) e ∙ f))
    | inr (ep, rest, eq, f) ↦
        inr (inl (ep, rest, eq, ap (λ o. or_else o (first_healthy eps)) e ∙ f, omega arith))
  ]
]

effective_weight-pos : (ep : Endpoint) → 0 < effective_weight ep
unfolding effective_weight
effective_weight-pos ep = ground arith

total_pos : (w : Weighted) → IsWeighed w → 0 < length w.endpoints → 0 < w.total_weight
total_pos w v pos = positive w.endpoints pos (v.total ∙ ap sum v.each)
  where
    positive :
        (eps : List Endpoint) → 0 < length eps → w.total_weight ≡ weight_of eps → 0 < w.total_weight
    positive [] h e = absurd (omega arith)
    positive (ep ∷ eps) h e = omega (arith, effective_weight-pos ep)

-- With its weights in step and some endpoint, `Next` takes the position `counter % totalWeight` and
-- returns the healthy endpoint in whose share it lies, the shares being the weights of the healthy
-- endpoints laid end to end. Past the last share it returns the first healthy endpoint, and nil
-- exactly if there is none. The position is below the sum of all weights.
pub next-proportional :
    (w : Weighted)
    → IsWeighed w
    → 0 < length w.endpoints
    → let position = bump w.current % w.total_weight in
      (position < weight_of w.endpoints) × Picked (keep is_healthy w.endpoints) position (next w).1
unfolding next
next-proportional w v pos = (
  omega (arith, mod-lt (bump w.current) (total_pos w v pos), v.total ∙ ap sum v.each),
  subst (Picked (keep is_healthy w.endpoints) (bump w.current % w.total_weight)) (sym nonempty)
      (picks w.endpoints (bump w.current % w.total_weight)),
)
  where
    nonempty :
        (next w).1
        ≡ or_else
            (select
              (bump w.current % w.total_weight)
              0
              w.endpoints
              (map effective_weight w.endpoints))
            (first_healthy w.endpoints)
    nonempty = ground (arith, total_pos w v pos)
