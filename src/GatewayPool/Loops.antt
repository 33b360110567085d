-- ===== src/GatewayPool/Loops.antt =====
-- The loops over the endpoints that the strategies use.
use mcp_bridge.Prelude.{
  ℕ, ◌<◌, ◌≡◌, ◌⊎◌, inl, inr, refl, subst, true, List, [], ◌∷◌, ◌++◌, arith, if_cases, All,
  All-append, In, In-append, length, length-append,
}
use mcp_bridge.Prelude.Int.{ℤ, pos, ◌+ℤ◌, ◌≤ℤ◌, ltb_ℤ, int_laws, eq_of_parts, +ℤ_assoc}
use mcp_bridge.GatewayPool.{
  GatewayEndpointWrapper, fewest, total_weight, select_by_weight, find_highest_priority,
}

-- `selectLeastConnections`: one of the endpoints, that no other undercuts.
pub fewest-least :
    (s : GatewayEndpointWrapper) (eps : List GatewayEndpointWrapper)
    → let r = fewest s eps in In r (s ∷ eps) × All (λ e. r.active_conns ≤ℤ e.active_conns) (s ∷ eps)
unfolding fewest
fewest-least s [] = (inl refl, (omega arith, tt))
fewest-least s (ep ∷ eps) =
    if_cases
      (λ t.
        let r = fewest t eps in
        In r (s ∷ ep ∷ eps) × All (λ e. r.active_conns ≤ℤ e.active_conns) (s ∷ ep ∷ eps))
      (ltb_ℤ ep.active_conns s.active_conns) ep s
      (λ fewer.
        let (i, (h, hs)) = fewest-least ep eps in (inr i, (ground (arith, fewer, h), (h, hs))))
      (λ more.
        let (i, (h, hs)) = fewest-least s eps in
        (elim i [ inl e ↦ inl e | inr j ↦ inr (inr j) ], (h, (ground (arith, more, h), hs))))

-- The loop of the weights ends at an endpoint of positive weight, when the point lies within them.
pub select_by_weight-positive :
    (target : ℕ) (current : ℤ) (eps : List GatewayEndpointWrapper) (last : GatewayEndpointWrapper)
    → current ≤ℤ pos target
    → ltb_ℤ (pos target) (current +ℤ total_weight eps) ≡ true
    → let r = select_by_weight target current eps last in In r eps × (pos 1 ≤ℤ r.weight)
unfolding select_by_weight total_weight
select_by_weight-positive target current [] last le lt = absurd (grind (int_laws, le, lt))
select_by_weight-positive target current (ep ∷ eps) last le lt =
    if_cases (λ r. In r (ep ∷ eps) × (pos 1 ≤ℤ r.weight))
      (ltb_ℤ (pos target) (current +ℤ ep.weight)) _ _
      (λ here. (inl refl, grind (int_laws, here, le)))
      (λ later.
        let (i, w) =
          select_by_weight-positive target (current +ℤ ep.weight) eps ep (ground (arith, later)) (
            subst (λ z. ltb_ℤ (pos target) z ≡ true) (+ℤ_assoc current ep.weight (total_weight eps))
              lt) in
        (inr i, w))

-- The endpoints of the smallest priority: some, all of one priority that none undercuts.
abbrev pub Best :
    ℤ
    → List GatewayEndpointWrapper
    → List GatewayEndpointWrapper
    → List GatewayEndpointWrapper
    → Type 0
Best best group eps g =
    (b : ℤ) × All (λ e. e.priority ≡ b) g
    × (b ≤ℤ best)
    × All (λ e. b ≤ℤ e.priority) eps
    × ((e : GatewayEndpointWrapper) → In e g → In e group ⊎ In e eps)
    × (0 < length g)

find_highest_priority-Best :
    (best : ℤ) (group eps : List GatewayEndpointWrapper)
    → All (λ e. e.priority ≡ best) group
    → 0 < length group
    → Best best group eps (find_highest_priority best group eps)
unfolding find_highest_priority
find_highest_priority-Best best group [] same some_in =
    (best, same, omega arith, tt, (λ e m. inl m), some_in)
find_highest_priority-Best best group (ep ∷ eps) same some_in =
    if_cases (Best best group (ep ∷ eps)) (ltb_ℤ ep.priority best) _ _
      (λ smaller.
        let (b, all, le, least, from, full) =
          find_highest_priority-Best ep.priority (ep ∷ []) eps (refl, tt) (omega arith) in
        (
          b,
          all,
          ground (arith, smaller, le),
          (le, least),
          (λ e m. elim (from e m) [
            | inl i ↦ elim i [ inl h ↦ inr (inl h) | inr n ↦ absurd n ]
            | inr i ↦ inr (inr i)
          ]),
          full,
        ))
      (λ not_smaller.
        if_cases (Best best group (ep ∷ eps)) (ltb_ℤ best ep.priority) _ _
          (λ larger.
            let (b, all, le, least, from, full) =
              find_highest_priority-Best best group eps same some_in in
            (
              b,
              all,
              le,
              (ground (arith, larger, le), least),
              (λ e m. elim (from e m) [ inl i ↦ inl i | inr i ↦ inr (inr i) ]),
              full,
            ))
          (λ not_larger.
            let (b, all, le, least, from, full) =
              find_highest_priority-Best best (group ++ ep ∷ []) eps
                (All-append (λ e. e.priority ≡ best) group (ep ∷ []) same
                  (eq_of_parts ep.priority best (ground (arith, not_smaller, not_larger)), tt))
                (omega (arith, length-append group (ep ∷ []))) in
            (
              b,
              all,
              le,
              (ground (arith, not_smaller, le), least),
              (λ e m. elim (from e m) [
                | inl i ↦ elim ((In-append e group (ep ∷ [])).0 i) [
                  | inl j ↦ inl j
                  | inr j ↦ elim j [ inl h ↦ inr (inl h) | inr n ↦ absurd n ]
                ]
                | inr i ↦ inr (inr i)
              ]),
              full,
            )))

-- From the first endpoint on.
pub first-Best :
    (ep : GatewayEndpointWrapper) (eps : List GatewayEndpointWrapper)
    → Best ep.priority [] (ep ∷ eps) (find_highest_priority ep.priority [] (ep ∷ eps))
unfolding find_highest_priority
first-Best ep eps =
    let (b, all, le, least, from, full) =
      find_highest_priority-Best ep.priority (ep ∷ []) eps (refl, tt) (omega arith) in
    let found : Best ep.priority [] (ep ∷ eps) (find_highest_priority ep.priority (ep ∷ []) eps) = (
      b,
      all,
      le,
      (le, least),
      (λ e m. elim (from e m) [
        | inl i ↦ elim i [ inl h ↦ inr (inl h) | inr n ↦ absurd n ]
        | inr i ↦ inr (inr i)
      ]),
      full,
    ) in
    if_cases (Best ep.priority [] (ep ∷ eps)) (ltb_ℤ ep.priority ep.priority) _ _ (λ _. found)
      (λ _.
        if_cases (Best ep.priority [] (ep ∷ eps)) (ltb_ℤ ep.priority ep.priority) _ _
          (λ less. absurd (ground (arith, less))) (λ _. found))
