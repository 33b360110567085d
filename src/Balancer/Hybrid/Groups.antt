-- ===== src/Balancer/Hybrid/Groups.antt =====
-- The protocol groups of the hybrid balancer.
use mcp_bridge.Prelude.{
  ◌+◌, ◌≤◌, ◌≡◌, keep, ap, subst, ◌⊎◌, ◌↔◌, inl, inr, List, [], ◌∷◌, ◌++◌, arith, length, In,
  Bool-cases, In-append, length-append, String, str_eq, eq_iff, StrMap, find, put, find-put,
  if◌then◌else◌,
}
use mcp_bridge.Balancer.{Endpoint}
use mcp_bridge.Balancer.Hybrid.{
  Hybrid, HybridConfig, group_of, group_by_protocol, detect_protocol, new_hybrid,
}

group_of-put :
    (g : StrMap (List Endpoint)) (k j : String) (v : List Endpoint)
    → group_of (put k v g) j ≡ (if str_eq k j then v else group_of g j)
unfolding group_of
group_of-put g k j v = ground (arith, find-put k j v g)

In-appended :
    (g : StrMap (List Endpoint)) (d p : String) (x ep : Endpoint)
    → In ep (group_of (put d (group_of g d ++ x ∷ []) g) p)
      ↔ (In ep (group_of g p) ⊎ ((x ≡ ep) × (d ≡ p)))
In-appended g d p x ep = elim (Bool-cases (str_eq d p)) [
  | inl same ↦
      let d≡p = (eq_iff d p).0 same in
      let old = subst (λ k. In ep (group_of g d) ↔ In ep (group_of g k)) d≡p ((λ m. m), λ m. m) in
      rw (group_of-put g d p (group_of g d ++ x ∷ []), same)
        (
          (λ m. ground (arith, old, In-append ep (group_of g d) (x ∷ []))),
          (λ m. ground (arith, old, In-append ep (group_of g d) (x ∷ []))),
        )
  | inr other ↦
      rw (group_of-put g d p (group_of g d ++ x ∷ []), other)
        ((λ m. inl m), λ m. ground (arith, eq_iff d p))
]

In-group_by_protocol :
    (eps : List Endpoint) (g : StrMap (List Endpoint)) (p : String) (ep : Endpoint)
    → In ep (group_of (group_by_protocol eps g) p)
      ↔ (In ep (group_of g p) ⊎ (In ep eps × (detect_protocol ep ≡ p)))
unfolding group_by_protocol
In-group_by_protocol [] g p ep = ((λ m. inl m), λ m. ground arith)
In-group_by_protocol (x ∷ eps) g p ep =
    let here = In-appended g (detect_protocol x) p x ep in
    let rest =
      In-group_by_protocol eps
        (put (detect_protocol x) (group_of g (detect_protocol x) ++ x ∷ []) g) p ep in
    ((λ m. ground (arith, here, rest, m)), λ m. ground (arith, here, rest, m))

-- A group holds the endpoints of its protocol.
abbrev pub IsGrouped : Hybrid → Type 0
IsGrouped h =
    (p : String) (ep : Endpoint)
    → In ep (group_of h.protocol_groups p) ↔ (In ep h.endpoints × (detect_protocol ep ≡ p))

In-group_of_nil : (p : String) (ep : Endpoint) → ¬ In ep (group_of [] p)
unfolding group_of find
In-group_of_nil p ep m = m

regrouped :
    (eps : List Endpoint) (p : String) (ep : Endpoint)
    → In ep (group_of (group_by_protocol eps []) p) ↔ (In ep eps × (detect_protocol ep ≡ p))
regrouped eps p ep =
    let all = In-group_by_protocol eps [] p ep in
    let empty = In-group_of_nil p ep in
    ((λ m. ground (arith, all, empty, m)), λ m. ground (arith, all, m))

-- The endpoints of a protocol, in the order of the list.
abbrev pub speaking : String → List Endpoint → List Endpoint
speaking p eps = keep (λ ep. str_eq (detect_protocol ep) p) eps

-- A balancer over these endpoints, each protocol's group being its endpoints in their order.
abbrev pub GroupsOf : List Endpoint → Hybrid → Type 0
GroupsOf eps h =
    (h.endpoints ≡ eps) × ((p : String) → group_of h.protocol_groups p ≡ speaking p eps)

-- The groups of a new balancer.
pub new_hybrid-IsGrouped :
    (eps : List Endpoint) (config : HybridConfig) → IsGrouped (new_hybrid eps config)
unfolding new_hybrid
new_hybrid-IsGrouped eps config p ep = regrouped eps p ep

-- A group is no longer than the list.
pub length-group_by_protocol :
    (eps : List Endpoint) (g : StrMap (List Endpoint)) (p : String)
    → length (group_of (group_by_protocol eps g) p) ≤ length eps + length (group_of g p)
unfolding group_by_protocol
length-group_by_protocol [] g p = omega arith
length-group_by_protocol (x ∷ eps) g p =
    let d = detect_protocol x in
    let rest = length-group_by_protocol eps (put d (group_of g d ++ x ∷ []) g) p in
    let here = one_more g d p x in omega (arith, rest, here)
  where
    one_more :
        (g : StrMap (List Endpoint)) (d p : String) (x : Endpoint)
        → length (group_of (put d (group_of g d ++ x ∷ []) g) p) ≤ 1 + length (group_of g p)
    one_more g d p x = elim (Bool-cases (str_eq d p)) [
      | inl same ↦
          let e = ap (λ k. length (group_of g k)) ((eq_iff d p).0 same) in
          rw (group_of-put g d p (group_of g d ++ x ∷ []), same)
            (omega (arith, e, length-append (group_of g d) (x ∷ [])))
      | inr other ↦ rw (group_of-put g d p (group_of g d ++ x ∷ []), other) (omega arith)
    ]
