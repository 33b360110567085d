-- ===== src/GatewayPool/Selection.antt =====
-- Which endpoint is selected.
use native.Mathlib.Nat.{mod-lt}
use mcp_bridge.Prelude.{
  ℕ, zero, suc, ◌%◌, ◌<◌, ◌≡◌, ◌==◌, ◌⊎◌, inl, inr, refl, sym, ap, subst, Bool, true, false, some,
  List, [], ◌∷◌, arith, All, All-In, In, get_elem?, get_elem?-some, if◌then◌else◌, keep, length,
  Result, ok, err,
}
use mcp_bridge.Prelude.Int.{ℤ, pos, negsuc, ◌≤ℤ◌, ltb_ℤ, int_laws}
use mcp_bridge.GatewayPool.{
  GatewayEndpointWrapper, Strategy, round_robin, least_connections, weighted, priority_strategy,
  other_strategy, GatewayPool, SelectError, no_healthy_endpoints, no_endpoints, panics, Choice,
  or_panic, select_round_robin, fewest, total_weight, select_by_weight, find_highest_priority, draw,
  select_by_strategy, apply_priority, is_up, select_among, select_endpoint, select_for_retry,
}
use mcp_bridge.GatewayPool.Loops.{fewest-least, select_by_weight-positive, first-Best}

-- What each strategy asks of the endpoint it selects.
abbrev pub Fits : Strategy → ℕ → List GatewayEndpointWrapper → GatewayEndpointWrapper → Type 0
Fits round_robin index eps ep = get_elem? eps (index % length eps) ≡ some ep
Fits other_strategy index eps ep = get_elem? eps (index % length eps) ≡ some ep
Fits least_connections index eps ep = All (λ e. ep.active_conns ≤ℤ e.active_conns) eps
Fits weighted index eps ep = (total_weight eps ≡ pos 0) ⊎ (pos 1 ≤ℤ ep.weight)
Fits priority_strategy index eps ep = All (λ e. ep.priority ≤ℤ e.priority) eps

abbrev pub Outcome :
    Strategy → ℕ → List GatewayEndpointWrapper → Result SelectError GatewayEndpointWrapper → Type 0
Outcome strategy index eps r =
    ((ep : GatewayEndpointWrapper) × (r ≡ ok ep) × In ep eps × Fits strategy index eps ep)
    ⊎ ((strategy ≡ weighted) × (ltb_ℤ (total_weight eps) (pos 0) ≡ true) × (r ≡ err panics))

Picked : List GatewayEndpointWrapper → Choice → Type 0
Picked eps c = (x : GatewayEndpointWrapper) × (c.1 ≡ ok x) × In x eps

select_round_robin-ok :
    (index : ℕ) (eps : List GatewayEndpointWrapper)
    → 0 < length eps
    → (x : GatewayEndpointWrapper) × ((select_round_robin index eps).1 ≡ ok x)
      × In x eps
      × (get_elem? eps (index % length eps) ≡ some x)
unfolding select_round_robin
select_round_robin-ok index eps full =
    let (x, e, i) = get_elem?-some eps (index % length eps) (mod-lt index full) in
    (x, ap or_panic e, i, e)

apply_priority-Picked :
    (index : ℕ) (eps : List GatewayEndpointWrapper)
    → 0 < length eps
    → Picked eps (apply_priority index eps)
unfolding apply_priority Picked
apply_priority-Picked index [] full = absurd (omega (arith, full))
apply_priority-Picked index (ep ∷ []) full = (ep, refl, inl refl)
apply_priority-Picked index (ep ∷ e ∷ eps) full =
    let (x, eq, i, _) = select_round_robin-ok index (ep ∷ e ∷ eps) full in (x, eq, i)

select_round_robin-Picked :
    (index : ℕ) (eps : List GatewayEndpointWrapper)
    → 0 < length eps
    → Picked eps (select_round_robin index eps)
unfolding Picked
select_round_robin-Picked index eps full =
    let (x, eq, i, _) = select_round_robin-ok index eps full in (x, eq, i)

-- Nothing but the index of the pool changes.
abbrev pub Selected :
    GatewayPool
    → List GatewayEndpointWrapper
    → SelectError
    → GatewayPool × Result SelectError GatewayEndpointWrapper
    → Type 0
Selected p eps e (q, r) =
    (q.endpoints ≡ p.endpoints)
    × (q.strategy ≡ p.strategy)
    × (((eps ≡ []) × (r ≡ err e)) ⊎ Outcome p.strategy p.round_robin_index eps r)

-- Where `SelectForRetry` looks: at the healthy endpoints, or at all if there are none.
abbrev pub looked_at : GatewayPool → List GatewayEndpointWrapper
looked_at p = if length (keep is_up p.endpoints) == 0 then p.endpoints else keep is_up p.endpoints

either-Selected :
    (p : GatewayPool) (e : SelectError) (b : Bool) (xs ys : List GatewayEndpointWrapper)
    (f : List GatewayEndpointWrapper → GatewayPool × Result SelectError GatewayEndpointWrapper)
    → ((eps : List GatewayEndpointWrapper) → Selected p eps e (f eps))
    → Selected p (if b then xs else ys) e (if b then f xs else f ys)
either-Selected p e true xs ys f h = h xs
either-Selected p e false xs ys f h = h ys

module _ (intn : ℕ → ℕ) (below : (n : ℕ) → 0 < n → intn n < n) where
  draw-Outcome :
      (index : ℕ) (z : ℤ) (ep : GatewayEndpointWrapper) (eps : List GatewayEndpointWrapper)
      → total_weight (ep ∷ eps) ≡ z
      → Outcome weighted index (ep ∷ eps) (draw intn index z ep eps).1
  unfolding draw
  draw-Outcome index (pos zero) ep eps e =
      let (x, eq, i, _) = select_round_robin-ok index (ep ∷ eps) (omega arith) in
      inl (x, eq, i, inl e)
  draw-Outcome index (pos (suc n)) ep eps e =
      let target = intn (suc n) in
      let within = below (suc n) (omega arith) in
      let (i, w) =
        select_by_weight-positive target (pos 0) (ep ∷ eps) ep (omega arith)
          (grind (int_laws, e, within)) in
      inl (select_by_weight target (pos 0) (ep ∷ eps) ep, refl, i, inr w)
  draw-Outcome index (negsuc n) ep eps e = inr (refl, ground (arith, e), refl)

  select_by_strategy-Outcome :
      (by_priority : ℕ → List GatewayEndpointWrapper → Choice)
      → ((index : ℕ) (eps : List GatewayEndpointWrapper)
          → 0 < length eps
          → Picked eps (by_priority index eps))
      → (strategy : Strategy) (index : ℕ) (ep : GatewayEndpointWrapper)
        (eps : List GatewayEndpointWrapper)
      → Outcome strategy index
          (ep ∷ eps)
          (select_by_strategy intn by_priority strategy index ep eps).1
  unfolding select_by_strategy Picked
  select_by_strategy-Outcome by_priority picks round_robin index ep eps =
      inl (select_round_robin-ok index (ep ∷ eps) (omega arith))
  select_by_strategy-Outcome by_priority picks other_strategy index ep eps =
      inl (select_round_robin-ok index (ep ∷ eps) (omega arith))
  select_by_strategy-Outcome by_priority picks least_connections index ep eps =
      let (i, least) = fewest-least ep eps in inl (fewest ep eps, refl, i, least)
  select_by_strategy-Outcome by_priority picks weighted index ep eps =
      draw-Outcome index (total_weight (ep ∷ eps)) ep eps refl
  select_by_strategy-Outcome by_priority picks priority_strategy index ep eps =
      let (b, all, le, least, from, full) = first-Best ep eps in
      let group = find_highest_priority ep.priority [] (ep ∷ eps) in
      let (x, eq, i) = picks index group full in
      let same = All-In (λ e. e.priority ≡ b) group x all i in
      inl (
        x,
        eq,
        elim (from x i) [ inl n ↦ absurd n | inr j ↦ j ],
        subst (λ c. All (λ e. c ≤ℤ e.priority) (ep ∷ eps)) (sym same) least,
      )

  select_among-Selected :
      (by_priority : ℕ → List GatewayEndpointWrapper → Choice)
      → ((index : ℕ) (eps : List GatewayEndpointWrapper)
          → 0 < length eps
          → Picked eps (by_priority index eps))
      → (e : SelectError) (p : GatewayPool) (eps : List GatewayEndpointWrapper)
      → Selected p eps e (select_among intn by_priority e p eps)
  unfolding select_among
  select_among-Selected by_priority picks e p [] = (refl, refl, inl (refl, refl))
  select_among-Selected by_priority picks e p (ep ∷ eps) = (
    refl,
    refl,
    inr (select_by_strategy-Outcome by_priority picks p.strategy p.round_robin_index ep eps),
  )

  -- For any `rand.Intn` that answers below its bound: `SelectEndpoint` fails exactly if no endpoint
  -- is healthy, and `SelectForRetry`, which looks at all endpoints then, if there is none at all,
  -- but that the weighted strategy panics where the sum of the weights is negative. Else the
  -- endpoint is one of those looked at: with the least connections, of the smallest priority, of a
  -- positive weight unless the weights add up to 0, or the one at the round-robin index, by the
  -- strategy. Only that index of the pool changes.
  pub selections :
      (p : GatewayPool)
      → Selected p (keep is_up p.endpoints) no_healthy_endpoints (select_endpoint intn p)
        × Selected p (looked_at p) no_endpoints (select_for_retry intn p)
  unfolding select_endpoint select_for_retry
  selections p = (
    select_among-Selected select_round_robin select_round_robin-Picked no_healthy_endpoints p
        (keep is_up p.endpoints),
    either-Selected p no_endpoints (length (keep is_up p.endpoints) == 0) p.endpoints
        (keep is_up p.endpoints) (select_among intn apply_priority no_endpoints p)
        (select_among-Selected apply_priority apply_priority-Picked no_endpoints p),
  )
