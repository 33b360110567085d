-- ===== src/Balancer.antt =====
-- What the gateway's load balancers share: services/gateway/pkg/loadbalancer, and the endpoints of
-- services/gateway/internal/discovery/types.go. Endpoints are pointers in Go; a balancer reads them
-- and never writes one, so they are values here, with the health that the balancer reads. A weight
-- of 0 or below is 0 here.
pub mod RoundRobin
pub mod Counts
pub mod LeastConnections
pub mod Weighted
pub mod Hybrid
mod Examples
use mcp_bridge.Prelude.{
  ℕ, zero, suc, ◌+◌, ◌%◌, ◌^◌, Bool, true, false, not, ◌||◌, Option, none, some, List, [], ◌∷◌, ltb,
  leb, ◌==◌, if◌then◌else◌, length, get_elem?, String, StrMap, find,
}

pub record Endpoint : Type 0 where
  pub address : String
  pub port : ℕ
  pub scheme : String
  pub path : String
  pub weight : ℕ
  pub metadata : StrMap String
  pub healthy : Bool

unfoldable pub is_healthy : Endpoint → Bool
is_healthy ep = ep.healthy

-- `atomic.AddUint64(&current, 1)`
abbrev pub bump : ℕ → ℕ
bump c = (c + 1) % 2 ^ 64

-- The loop of the round-robin balancers: `rounds` turns from the index `i` on, from the counter's
-- value `start`, for the first endpoint that passes.
unfoldable pub scan : (Endpoint → Bool) → List Endpoint → ℕ → ℕ → ℕ → Option Endpoint
scan pass eps start i zero = none
scan pass eps start i (suc rounds) =
    let rest = scan pass eps start (i + 1) rounds in
    elim (get_elem? eps ((start + i) % 2 ^ 64 % length eps)) [
      | none ↦ none
      | some ep ↦ if pass ep then some ep else rest
    ]

-- The weight that a balancer counts with.
unfoldable pub effective_weight : Endpoint → ℕ
effective_weight ep = if ep.weight == 0 then 1 else ep.weight
