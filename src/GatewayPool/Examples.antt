-- ===== src/GatewayPool/Examples.antt =====
-- Three endpoints, one of them not healthy.
use mcp_bridge.Prelude.{
  ℕ, ◌-◌, ◌<◌, ◌≡◌, refl, Bool, true, false, List, [], ◌∷◌, arith, keep, String, ok,
}
use mcp_bridge.Prelude.Int.{pos, ◌+ℤ◌}
use mcp_bridge.GatewayPool.{
  EndpointHealth, GatewayEndpointWrapper, Strategy, weighted, priority_strategy, GatewayPool,
  no_healthy_endpoints, no_endpoints, is_up, select_endpoint, select_for_retry,
}
use mcp_bridge.GatewayPool.Selection.{Selected, looked_at, selections}
use mcp_bridge.GatewayPool.Health.{check_all, health_by_last_check}

abbrev health : Bool → EndpointHealth
health b = record { is_healthy = b; consecutive_failures = 0; consecutive_successes = 0 }

abbrev endpoint : String → ℕ → ℕ → Bool → GatewayEndpointWrapper
endpoint url weight priority b = record {
  address = weight;
  url = url;
  weight = pos weight;
  priority = pos priority;
  tags = [];
  health = health b;
  active_conns = pos 0;
}

abbrev three : List GatewayEndpointWrapper
three = endpoint "a" 0 2 true ∷ endpoint "b" 9 1 false ∷ endpoint "c" 4 2 true ∷ []

abbrev by : Strategy → GatewayPool
by s = record { endpoints = three; strategy = s; round_robin_index = 18446744073709551615 }

-- The last number below the bound.
abbrev last_below : ℕ → ℕ
last_below n = n - 1

last_below_lem : (n : ℕ) → 0 < n → last_below n < n
last_below_lem n h = omega (arith, h)

weighted_c : (select_endpoint last_below (by weighted)).1 ≡ ok (endpoint "c" 4 2 true)
unfolding select_endpoint ◌+ℤ◌
weighted_c = refl

priority_wraps : select_endpoint last_below (by priority_strategy) ≡ (
  record { endpoints = three; strategy = priority_strategy; round_robin_index = 0 },
  ok (endpoint "c" 4 2 true),
)
unfolding select_endpoint
priority_wraps = refl

selections_example :
    Selected
      (by weighted)
      (keep is_up three)
      no_healthy_endpoints
      (select_endpoint last_below (by weighted))
    × Selected
        (by weighted)
        (looked_at (by weighted))
        no_endpoints
        (select_for_retry last_below (by weighted))
selections_example = selections last_below last_below_lem (by weighted)

health_by_last_check_example :
    let r = check_all 3 5 (health true) (false ∷ true ∷ true ∷ []) in
    (r.is_healthy ≡ false) × (r.consecutive_successes ≡ 0) × (r.consecutive_failures ≡ 1)
health_by_last_check_example = health_by_last_check 3 5 (health true) (false ∷ true ∷ true ∷ [])
