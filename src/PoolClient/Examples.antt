-- ===== src/PoolClient/Examples.antt =====
-- The pool's client with three endpoints, the first of which refuses connections.
use mcp_bridge.Prelude.{
  ℕ, ◌-◌, ◌==◌, true, none, some, List, [], ◌∷◌, String, str_eq, err, if◌then◌else◌,
}
use mcp_bridge.Prelude.Int.{pos}
use mcp_bridge.GatewayPool.{GatewayEndpointWrapper, least_connections}
use mcp_bridge.NamespaceRouter.{Regexp}
use mcp_bridge.PoolClient.{GatewayClient, PoolClient, connect}
use mcp_bridge.PoolClient.Runs.{Op, connecting, reconnecting, pinging, by_tags, closing}

abbrev literal : Regexp
literal = record {
  Regex = String;
  compile = λ p. some p;
  match_string = λ re s. str_eq re s;
  find_submatch = λ re s. [];
}

-- Every client but the first connects, and is connected from then on.
abbrev network : GatewayClient
network = record {
  World = ℕ;
  Request = String;
  Response = String;
  method = λ r. r;
  connect = λ a w. if a == 1 then (w, some "refused") else (a, none);
  send = λ a r w. (w, none);
  receive = λ a w. (w, err "closed");
  ping = λ a w. (w, some "lost");
  close = λ a w. (0, none);
  is_connected = λ a w. (w, a == w);
}

abbrev endpoint : ℕ → GatewayEndpointWrapper
endpoint a = record {
  address = a;
  url = "u";
  weight = pos 1;
  priority = pos a;
  tags = "t" ∷ [];
  health = record { is_healthy = true; consecutive_failures = 0; consecutive_successes = 0 };
  active_conns = pos 0;
}

abbrev client : PoolClient literal network
client = record {
  pool = record {
    endpoints = endpoint 1 ∷ endpoint 2 ∷ endpoint 3 ∷ [];
    strategy = least_connections;
    round_robin_index = 0;
  };
  retry_count = pos 2;
  namespace_router = none;
  current_endpoint = none;
  world = 0;
  slept = 0;
}

-- The last number below the bound.
abbrev last_below : ℕ → ℕ
last_below n = n - 1

abbrev ops : List (Op literal network)
ops = connecting ∷ pinging ∷ by_tags ("t" ∷ []) ∷ reconnecting ∷ closing ∷ []
