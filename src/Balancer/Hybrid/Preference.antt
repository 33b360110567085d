-- ===== src/Balancer/Hybrid/Preference.antt =====
-- The selection of the hybrid balancer and its protocol preference.
use mcp_bridge.Prelude.{
  ◌==◌, ℕ, ◌+◌, ◌^◌, ◌≤◌, ◌<◌, ◌≡◌, refl, sym, ap, ◌∙◌, subst, ◌⊎◌, inl, inr, true, false, Option,
  none, some, List, [], ◌∷◌, ◌++◌, arith, length, All, In, Bool-cases, All-In, String,
  if◌then◌else◌,
}
use mcp_bridge.Balancer.{Endpoint}
use mcp_bridge.Balancer.Counts.{count_of}
use mcp_bridge.Balancer.LeastConnections.{max_int64}
use mcp_bridge.Balancer.Hybrid.{
  Hybrid, eligible, next_round_robin, apply_strategy, group_of, detect_protocol, checked,
  select_from_protocol, select_from_preferred_protocols, track, fallback, next,
}
use mcp_bridge.Balancer.Hybrid.Groups.{IsGrouped}
use mcp_bridge.Balancer.Hybrid.Strategies.{
  next_round_robin-Picks, Picks, Fits, apply_strategy-Picks, apply_strategy-counter,
}

-- The numbers are in range for every group, and stay so over as many protocols.
abbrev pub AllFit : Hybrid → ℕ → ℕ → Type 0
AllFit h protocols c =
    ((p : String) → c + protocols + 1 + length (group_of h.protocol_groups p) ≤ 2 ^ 64)
    × ((k : String) → count_of h.connections k ≤ max_int64)

-- No endpoint of the group is eligible.
abbrev Barren : Hybrid → String → Type 0
Barren h p = All (λ ep. eligible h ep ≡ false) (group_of h.protocol_groups p)

checked_lem : (h : Hybrid) (ep : Endpoint) → eligible h ep ≡ true → checked h (some ep) ≡ some ep
unfolding checked eligible
checked_lem h ep e = ground arith

-- The body of `selectFromProtocol`, for any group.
from_group : Hybrid → List Endpoint → ℕ → ℕ × Option Endpoint
from_group h eps c =
    if length eps == 0
    then (c, none)
    else let (c', selected) = apply_strategy h eps c in (c', checked h selected)

from_group-Picks :
    (h : Hybrid) (eps : List Endpoint) (c : ℕ) → Fits h eps c → Picks h eps (from_group h eps c).1
unfolding from_group
from_group-Picks h [] c f = inr (refl, tt)
from_group-Picks h (x ∷ eps) c f = elim (apply_strategy-Picks h (x ∷ eps) c f) [
  | inl (ep, e, m, t) ↦ inl (ep, selected ∙ ap (checked h) e ∙ checked_lem h ep t, m, t)
  | inr (e, barren) ↦ inr (selected ∙ ap (checked h) e ∙ nothing, barren)
]
  where
    selected : (from_group h (x ∷ eps) c).1 ≡ checked h (apply_strategy h (x ∷ eps) c).1
    selected = ground arith

    nothing : checked h none ≡ none
    nothing = unfold checked in refl

select_from_protocol-Picks :
    (h : Hybrid) (p : String) (c : ℕ)
    → Fits h (group_of h.protocol_groups p) c
    → Picks h (group_of h.protocol_groups p) (select_from_protocol h p c).1
unfolding select_from_protocol from_group
select_from_protocol-Picks h p c f = from_group-Picks h (group_of h.protocol_groups p) c f

select_from_protocol-counter :
    (h : Hybrid) (p : String) (c : ℕ) → c + 1 < 2 ^ 64 → (select_from_protocol h p c).0 ≤ c + 1
unfolding select_from_protocol
select_from_protocol-counter h p c f =
    ground (arith, apply_strategy-counter h (group_of h.protocol_groups p) c)

-- What a walk along the protocols selects: an eligible endpoint of the first protocol that has one.
abbrev Walks : Hybrid → List String → Option Endpoint → Type 0
Walks h ps r =
    ((ep : Endpoint) × (p : String) × (pre post : List String) × (r ≡ some ep)
      × (ps ≡ pre ++ p ∷ post)
      × In ep (group_of h.protocol_groups p)
      × (eligible h ep ≡ true)
      × All (Barren h) pre)
    ⊎ ((r ≡ none) × All (Barren h) ps)

-- What the walk does with the result for one protocol.
go_on : Hybrid → List String → ℕ → Option Endpoint → ℕ × Option Endpoint
go_on h ps c selected = elim selected [
  | none ↦ select_from_preferred_protocols h ps c
  | some ep ↦ (c, some ep)
]

select_from_preferred_protocols-Walks :
    (h : Hybrid) (ps : List String) (c : ℕ)
    → AllFit h (length ps) c
    → Walks h ps (select_from_preferred_protocols h ps c).1
unfolding select_from_preferred_protocols go_on
select_from_preferred_protocols-Walks h [] c f = inr (refl, tt)
select_from_preferred_protocols-Walks h (p ∷ ps) c f =
    elim (select_from_protocol-Picks h p c
      (record { counter = omega (arith, f.0 p); counts = f.1 })) [
        | inl (ep, e, m, t) ↦
            inl (ep, p, [], ps, rw (e, select_from_preferred_protocols) refl, refl, m, t, tt)
        | inr (e, barren) ↦
            subst (λ o. Walks h (p ∷ ps) (go_on h ps (select_from_protocol h p c).0 o).1) (sym e)
              (onward
                (select_from_preferred_protocols-Walks h ps (select_from_protocol h p c).0 later)
                barren)
      ]
  where
    later : AllFit h (length ps) (select_from_protocol h p c).0
    later = ((λ q. omega (arith, f.0 q, f.0 p, select_from_protocol-counter h p c)), f.1)

    onward : {r : Option Endpoint} → Walks h ps r → Barren h p → Walks h (p ∷ ps) r
    onward (inl (ep, q, pre, post, e, eq, m, t, b)) here =
        inl (ep, q, p ∷ pre, post, e, ap (λ xs. p ∷ xs) eq, m, t, (here, b))
    onward (inr (e, b)) here = inr (e, (here, b))

-- An endpoint of the first protocol in the preference that has an eligible one.
abbrev pub FirstPreferred : Hybrid → Endpoint → Type 0
FirstPreferred h ep =
    (pre post : List String) × (h.protocol_pref ≡ pre ++ detect_protocol ep ∷ post)
    × ((other : Endpoint)
        → In other h.endpoints
        → In (detect_protocol other) pre
        → eligible h other ≡ false)

abbrev pub FallbackResult : Hybrid → Option Endpoint → Type 0
FallbackResult h r =
    ((h.health_aware ≡ true) × (r ≡ none)) ⊎ ((h.health_aware ≡ false) × Picks h h.endpoints r)

-- What `Next` may return when the walk selects nothing.
abbrev pub FallsBack : Hybrid → Option Endpoint → Type 0
FallsBack h r =
    ((other : Endpoint)
      → In other h.endpoints
      → In (detect_protocol other) h.protocol_pref
      → eligible h other ≡ false)
    × FallbackResult h r

abbrev pub Selected : Hybrid → Option Endpoint → Type 0
Selected h r =
    ((ep : Endpoint) × (r ≡ some ep)
      × In ep h.endpoints
      × (eligible h ep ≡ true)
      × FirstPreferred h ep)
    ⊎ FallsBack h r

-- The end of `Next`, after the walk along the preferred protocols.
finish : Hybrid → ℕ → Option Endpoint → Hybrid × Option Endpoint
finish h c selected = elim selected [ none ↦ fallback h c | some ep ↦ (track h c ep, some ep) ]

abbrev walked : Hybrid → ℕ × Option Endpoint
walked h = select_from_preferred_protocols h h.protocol_pref h.current

next_nonempty : (h : Hybrid) → 0 < length h.endpoints → next h ≡ finish h (walked h).0 (walked h).1
unfolding next finish
next_nonempty h pos = ground arith

finish-some : (h : Hybrid) (c : ℕ) (ep : Endpoint) → (finish h c (some ep)).1 ≡ some ep
unfolding finish
finish-some h c ep = refl

fallback_lem : (h : Hybrid) (c : ℕ) → Fits h h.endpoints c → FallbackResult h (finish h c none).1
unfolding finish fallback
fallback_lem h c f = elim (Bool-cases h.health_aware) [
  | inl aware ↦ inl (aware, ground arith)
  | inr blind ↦
      let robin : (next_round_robin h h.endpoints c).1 ≡ (finish h c none).1 = ground arith in
      inr (blind, subst (Picks h h.endpoints) robin (next_round_robin-Picks h h.endpoints c f))
]

walked-counter :
    (h : Hybrid) (ps : List String) (c : ℕ)
    → c + length ps + 1 < 2 ^ 64
    → (select_from_preferred_protocols h ps c).0 ≤ c + length ps
unfolding select_from_preferred_protocols
walked-counter h [] c f = omega arith
walked-counter h (p ∷ ps) c f =
    ground (
      arith,
      select_from_protocol-counter h p c,
      walked-counter h ps (select_from_protocol h p c).0,
    )

Barren-group :
    (h : Hybrid)
    → IsGrouped h
    → (ps : List String) → All (Barren h) ps
    → (other : Endpoint) → In other h.endpoints
    → In (detect_protocol other) ps
    → eligible h other ≡ false
Barren-group h g ps b other i j =
    All-In (λ ep. eligible h ep ≡ false) (group_of h.protocol_groups (detect_protocol other)) other
      (All-In (Barren h) ps (detect_protocol other) b j)
      ((g (detect_protocol other) other).1 (i, refl))

-- Where the counter does not wrap and the counts are int64 values: `Next` returns an endpoint of
-- the balancer that is healthy, if the balancer looks at health, and whose protocol is the first in
-- the preference with such an endpoint. If no preferred protocol has one it returns nil when the
-- balancer looks at health, and when it does not, any endpoint, or nil if there is none. This is so
-- whatever `FallbackToUnhealthy` was in the configuration.
pub next-preference :
    (h : Hybrid)
    → IsGrouped h
    → 0 < length h.endpoints
    → AllFit h (length h.protocol_pref + 1 + length h.endpoints) h.current
    → ((ep : Endpoint) × ((next h).1 ≡ some ep)
        × In ep h.endpoints
        × (eligible h ep ≡ true)
        × FirstPreferred h ep)
      ⊎ FallsBack h (next h).1
next-preference h g pos f =
    subst (λ r. Selected h r.1) (sym (next_nonempty h pos))
      (ends (select_from_preferred_protocols-Walks h h.protocol_pref h.current fits))
  where
    fits : AllFit h (length h.protocol_pref) h.current
    fits = ((λ p. omega (arith, f.0 p)), f.1)

    ends : Walks h h.protocol_pref (walked h).1 → Selected h (finish h (walked h).0 (walked h).1).1
    ends (inl (ep, p, pre, post, e, eq, m, t, b)) =
        let (there, at) = (g p ep).0 m in
        inl (
          ep,
          ap (λ o. (finish h (walked h).0 o).1) e ∙ finish-some h (walked h).0 ep,
          there,
          t,
          (
            pre,
            post,
            eq ∙ ap (λ q. pre ++ q ∷ post) (sym at),
            λ other i j. Barren-group h g pre b other i j,
          ),
        )
    ends (inr (e, b)) = inr (
      (λ other i j. Barren-group h g h.protocol_pref b other i j),
      subst (λ o. FallbackResult h (finish h (walked h).0 o).1) (sym e)
          (fallback_lem h (walked h).0 (record {
            counter =
                omega (
                  arith,
                  f.0 "",
                  walked-counter h h.protocol_pref h.current (omega (arith, f.0 "")),
                );
            counts = f.1;
          })),
    )
