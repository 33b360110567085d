-- ===== src/Balancer/Hybrid.antt =====
-- `HybridLoadBalancer` of services/gateway/pkg/loadbalancer/hybrid.go.
-- The atomic counter `current` is threaded through the selection; the connection counts are written
-- once, when an endpoint has been selected. Both are part of the state that `next` returns.
pub mod Strategies
pub mod Groups
pub mod Preference
use mcp_bridge.Prelude.{
  ℕ, ◌+◌, ◌%◌, Bool, true, false, not, ◌&&◌, ◌||◌, Option, none, some, List, [], ◌∷◌, ◌++◌, ◌==◌,
  ltb, if◌then◌else◌, length, get_elem?, String, str_eq, StrMap, find, put, keep,
}
use mcp_bridge.Balancer.{Endpoint, is_healthy, bump, scan, effective_weight}
use mcp_bridge.Balancer.Counts.{count_of, increment, decrement, carry_over}
use mcp_bridge.Balancer.LeastConnections.{max_int64}

pub record HybridConfig : Type 0 where
  pub strategy : String
  pub health_aware : Bool
  pub protocol_preference : List String
  pub fallback_to_unhealthy : Bool  -- read by no function

pub record Hybrid : Type 0 where
  pub endpoints : List Endpoint
  pub protocol_groups : StrMap (List Endpoint)
  pub protocol_pref : List String
  pub strategy : String
  pub connections : StrMap ℕ
  pub current : ℕ  -- uint64
  pub health_aware : Bool

-- `ep.Metadata["sse"] == "true"`
says_true : Option String → Bool
says_true none = false
says_true (some s) = str_eq s "true"

infer_protocol : Endpoint → String
unfolding says_true
infer_protocol ep =
    if str_eq ep.scheme "ws" || str_eq ep.scheme "wss"
    then "websocket"
    else if str_eq ep.scheme "http" || str_eq ep.scheme "https"
    then (if str_eq ep.path "/events" || says_true (find "sse" ep.metadata) then "sse" else "http")
    else if str_eq ep.scheme "stdio"
    then "stdio"
    else if str_eq ep.address "localhost" || ep.port == 0
    then "stdio"
    else "http"

unfoldable pub detect_protocol : Endpoint → String
unfolding infer_protocol
detect_protocol ep = elim (find "protocol" ep.metadata) [
  | none ↦ infer_protocol ep
  | some protocol ↦ protocol
]

-- `protocolGroups[p]`, which is empty where the key is missing.
unfoldable pub group_of : StrMap (List Endpoint) → String → List Endpoint
group_of groups p = elim (find p groups) [ none ↦ [] | some eps ↦ eps ]

-- The loop of `updateProtocolGroups`.
unfoldable pub group_by_protocol : List Endpoint → StrMap (List Endpoint) → StrMap (List Endpoint)
group_by_protocol [] groups = groups
group_by_protocol (ep ∷ eps) groups =
    let p = detect_protocol ep in
    group_by_protocol eps (put p (group_of groups p ++ ep ∷ []) groups)

unfoldable pub update_protocol_groups : Hybrid → Hybrid
update_protocol_groups h = record h { protocol_groups = group_by_protocol h.endpoints [] }

abbrev default_preference : List String
default_preference = "http" ∷ "websocket" ∷ "stdio" ∷ "sse" ∷ []

unfoldable pub new_hybrid : List Endpoint → HybridConfig → Hybrid
unfolding update_protocol_groups
new_hybrid eps config = update_protocol_groups (record {
  endpoints = eps;
  protocol_groups = [];
  protocol_pref =
      if length config.protocol_preference == 0
      then default_preference
      else config.protocol_preference;
  strategy = if str_eq config.strategy "" then "round_robin" else config.strategy;
  connections = [];
  current = 0;
  health_aware = config.health_aware;
})

-- `!h.healthAware || ep.IsHealthy()`
unfoldable pub eligible : Hybrid → Endpoint → Bool
eligible h ep = not h.health_aware || is_healthy ep

unfoldable pub next_round_robin : Hybrid → List Endpoint → ℕ → ℕ × Option Endpoint
next_round_robin h eps c =
    if length eps == 0 then (c, none) else (bump c, scan (eligible h) eps (bump c) 0 (length eps))

-- The loop of `nextLeastConnections`, with `candidates` and `minConns`.
candidates : Hybrid → List Endpoint → List Endpoint → ℕ → List Endpoint
candidates h [] cands min_conns = cands
candidates h (ep ∷ eps) cands min_conns =
    let conns = count_of h.connections ep.address in
    let fewer = eligible h ep && ltb conns min_conns in
    let same = eligible h ep && conns == min_conns in
    candidates h eps (if fewer then ep ∷ [] else if same then cands ++ ep ∷ [] else cands)
      (if fewer then conns else min_conns)

-- One of the candidates, in turn.
among : List Endpoint → ℕ → ℕ × Option Endpoint
among [] c = (c, none)
among (ep ∷ []) c = (c, some ep)
among (ep ∷ ep' ∷ eps) c = (bump c, get_elem? (ep ∷ ep' ∷ eps) (bump c % length (ep ∷ ep' ∷ eps)))

unfoldable pub next_least_connections : Hybrid → List Endpoint → ℕ → ℕ × Option Endpoint
unfolding candidates among
next_least_connections h eps c = among (candidates h eps [] max_int64) c

-- The weight of the endpoints that `getHealthyWeightedEndpoints` keeps.
total_weight_of : List Endpoint → ℕ
total_weight_of [] = 0
total_weight_of (ep ∷ eps) = effective_weight ep + total_weight_of eps

-- The loop of `selectWeightedEndpoint`.
at_position : ℕ → ℕ → List Endpoint → Option Endpoint
at_position position current_weight [] = none
at_position position current_weight (ep ∷ eps) =
    let rest = at_position position (current_weight + effective_weight ep) eps in
    if ltb position (current_weight + effective_weight ep) then some ep else rest

-- `endpoints[0]`, after the loop.
or_first : Option Endpoint → List Endpoint → Option Endpoint
or_first (some ep) eps = some ep
or_first none eps = get_elem? eps 0

unfoldable pub next_weighted : Hybrid → List Endpoint → ℕ → ℕ × Option Endpoint
unfolding total_weight_of at_position or_first
next_weighted h eps c =
    let kept = keep (eligible h) eps in
    let total = total_weight_of kept in
    if length kept == 0 || total == 0
    then (c, none)
    else (bump c, or_first (at_position (bump c % total) 0 kept) kept)

unfoldable pub apply_strategy : Hybrid → List Endpoint → ℕ → ℕ × Option Endpoint
apply_strategy h eps c =
    if str_eq h.strategy "least_connections"
    then next_least_connections h eps c
    else if str_eq h.strategy "weighted"
    then next_weighted h eps c
    else next_round_robin h eps c

-- The health test on what the strategy selected.
checked : Hybrid → Option Endpoint → Option Endpoint
checked h none = none
checked h (some ep) = if h.health_aware && not (is_healthy ep) then none else some ep

unfoldable pub select_from_protocol : Hybrid → String → ℕ → ℕ × Option Endpoint
unfolding checked
select_from_protocol h protocol c =
    let eps = group_of h.protocol_groups protocol in
    if length eps == 0
    then (c, none)
    else let (c', selected) = apply_strategy h eps c in (c', checked h selected)

unfoldable pub select_from_preferred_protocols : Hybrid → List String → ℕ → ℕ × Option Endpoint
select_from_preferred_protocols h [] c = (c, none)
select_from_preferred_protocols h (p ∷ ps) c =
    let (c', selected) = select_from_protocol h p c in
    let rest = select_from_preferred_protocols h ps c' in
    elim selected [ none ↦ rest | some ep ↦ (c', some ep) ]

-- `trackConnection`, for an endpoint that came from a protocol group.
track : Hybrid → ℕ → Endpoint → Hybrid
track h c ep = record h {
  current = c;
  connections =
      if str_eq h.strategy "least_connections"
      then increment h.connections ep.address
      else h.connections;
}

-- `fallbackSelection`, whose endpoint is not tracked.
fallback : Hybrid → ℕ → Hybrid × Option Endpoint
fallback h c =
    if h.health_aware
    then (record h { current = c }, none)
    else let (c', r) = next_round_robin h h.endpoints c in (record h { current = c' }, r)

unfoldable pub next : Hybrid → Hybrid × Option Endpoint
unfolding track fallback
next h =
    if length h.endpoints == 0
    then (h, none)
    else (let (c, selected) = select_from_preferred_protocols h h.protocol_pref h.current in
        elim selected [ none ↦ fallback h c | some ep ↦ (track h c ep, some ep) ])

unfoldable pub update_endpoints : Hybrid → List Endpoint → Hybrid
unfolding update_protocol_groups
update_endpoints h eps =
    let h' = update_protocol_groups (record h { endpoints = eps }) in
    if str_eq h.strategy "least_connections"
    then record h' { connections = carry_over h.connections eps [] }
    else h'

unfoldable pub release_connection : Hybrid → String → Hybrid
release_connection h address =
    if str_eq h.strategy "least_connections"
    then record h { connections = decrement h.connections address }
    else h
