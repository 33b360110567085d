-- ===== src/Balancer/Examples.antt =====
-- The balancers at concrete inputs.
use mcp_bridge.Prelude.{
  ℕ, ◌+◌, ◌<◌, ◌%◌, ◌≡◌, refl, ◌⊎◌, Bool, true, false, none, some, List, [], ◌∷◌, arith, length,
  get_elem?, find, put, String, if◌then◌else◌, In, keep, All,
}
use mcp_bridge.Balancer.{effective_weight, Endpoint, is_healthy, bump}
use mcp_bridge.Balancer.Counts.{count_of, has_address}
use mcp_bridge.Balancer.RoundRobin
use mcp_bridge.Balancer.RoundRobin.{RoundRobin, Chosen, nth_next, next-healthy, nth_next_rotates}
use mcp_bridge.Balancer.LeastConnections
use mcp_bridge.Balancer.LeastConnections.{
  LeastConnections, new_least_connections, Selects, count_at, release_connection, next-least,
  release_connection-next, update_endpoints_counts, max_int64,
}
use mcp_bridge.Balancer.Weighted
use mcp_bridge.Balancer.Weighted.{
  Weighted, new_weighted, IsWeighed, next-proportional, weight_of, Picked,
}
use mcp_bridge.Balancer.Hybrid
use mcp_bridge.Balancer.Hybrid.{
  Hybrid, HybridConfig, new_hybrid, eligible, detect_protocol, group_of,
}
use mcp_bridge.Balancer.Hybrid.Groups.{new_hybrid-IsGrouped, length-group_by_protocol}
use mcp_bridge.Balancer.Hybrid.Preference.{AllFit, FirstPreferred, FallsBack, next-preference}

abbrev server : String → String → ℕ → Bool → Endpoint
server address scheme weight healthy = record {
  address = address;
  port = 80;
  scheme = scheme;
  path = "/";
  weight = weight;
  metadata = [];
  healthy = healthy;
}

abbrev three : List Endpoint
three = server "a" "http" 2 true ∷ server "b" "ws" 0 false ∷ server "c" "ws" 3 true ∷ []

abbrev two : List Endpoint
two = server "a" "http" 2 true ∷ server "c" "ws" 3 true ∷ []

abbrev rotating : RoundRobin
rotating = record { endpoints = three; current = 0 }

-- The unhealthy one is skipped.
rotating_skips : (RoundRobin.next rotating).1 ≡ some (server "c" "ws" 3 true)
unfolding RoundRobin.next is_healthy
rotating_skips = refl

next-healthy_example :
    ((RoundRobin.next rotating).0.endpoints ≡ three) × Chosen three (RoundRobin.next rotating).1
next-healthy_example = next-healthy rotating (omega arith)

abbrev both_up : RoundRobin
both_up = record { endpoints = two; current = 4 }

nth_next_up : All (λ ep. is_healthy ep ≡ true) both_up.endpoints
unfolding is_healthy
nth_next_up = (refl, (refl, tt))

nth_next_rotates_example : nth_next 2 both_up ≡ get_elem? two ((4 + 1 + 2) % length two)
nth_next_rotates_example = nth_next_rotates both_up 2 (omega arith) nth_next_up (omega arith)

abbrev idle : LeastConnections
idle = new_least_connections three

idle-next : (LeastConnections.next idle).1 ≡ some (server "a" "http" 2 true)
unfolding LeastConnections.next new_least_connections count_of find LeastConnections.least
    is_healthy
idle-next = refl

next-least_example : Selects idle (LeastConnections.next idle)
next-least_example = next-least idle

release_connection-next_example :
    count_at (release_connection (LeastConnections.next idle).0 "a") "a" ≡ count_at idle "a"
release_connection-next_example =
    release_connection-next idle (server "a" "http" 2 true) idle-next "a"

update_endpoints_counts_example :
    find "b" (LeastConnections.update_endpoints (LeastConnections.next idle).0 two).connections
    ≡ (if has_address "b" two then find "b" (LeastConnections.next idle).0.connections else none)
update_endpoints_counts_example = update_endpoints_counts (LeastConnections.next idle).0 two "b"

abbrev weighted : Weighted
weighted = record { endpoints = three; weights = 2 ∷ 1 ∷ 3 ∷ []; total_weight = 6; current = 0 }

weighted_made : new_weighted three ≡ some weighted
unfolding new_weighted effective_weight
weighted_made = refl

weighted-IsWeighed : IsWeighed weighted
unfolding effective_weight
weighted-IsWeighed = record { each = refl; total = refl }

weighted_pos : 0 < length weighted.endpoints
weighted_pos = omega arith

next-proportional_example :
    (bump weighted.current % weighted.total_weight < weight_of weighted.endpoints)
    × Picked
        (keep is_healthy weighted.endpoints)
        (bump weighted.current % weighted.total_weight)
        (Weighted.next weighted).1
next-proportional_example = next-proportional weighted weighted-IsWeighed weighted_pos

abbrev prefers_ws : HybridConfig
prefers_ws = record {
  strategy = "least_connections";
  health_aware = true;
  protocol_preference = "websocket" ∷ "http" ∷ [];
  fallback_to_unhealthy = true;
}

abbrev hybrid : Hybrid
hybrid = new_hybrid three prefers_ws

-- The first choice is the healthy endpoint of the first protocol.
hybrid-next : (Hybrid.next hybrid).1 ≡ some (server "c" "ws" 3 true)
unfolding Hybrid.next new_hybrid Hybrid.select_from_preferred_protocols Hybrid.select_from_protocol
    group_of find Hybrid.group_by_protocol put detect_protocol Hybrid.apply_strategy
    Hybrid.next_least_connections eligible is_healthy count_of
hybrid-next = refl

hybrid_length : length hybrid.endpoints ≡ 3
unfolding new_hybrid
hybrid_length = refl

no_group : (p : String) → length (group_of [] p) ≡ 0
unfolding group_of find
no_group p = refl

hybrid-AllFit :
    AllFit hybrid (length hybrid.protocol_pref + 1 + length hybrid.endpoints) hybrid.current
unfolding new_hybrid
hybrid-AllFit = (
  (λ p. omega (arith, length-group_by_protocol three [] p, no_group p)),
  λ k. unfold count_of find in omega arith,
)

next-preference_example :
    ((ep : Endpoint) × ((Hybrid.next hybrid).1 ≡ some ep)
      × In ep hybrid.endpoints
      × (eligible hybrid ep ≡ true)
      × FirstPreferred hybrid ep)
    ⊎ FallsBack hybrid (Hybrid.next hybrid).1
next-preference_example =
    next-preference hybrid (new_hybrid-IsGrouped three prefers_ws) (omega (arith, hybrid_length))
      hybrid-AllFit
