-- ===== src/PoolClient/Connecting.antt =====
-- What `Connect` of the pool's client comes to.
use mcp_bridge.Prelude.{
  ℕ, zero, suc, ◌+◌, ◌-◌, ◌*◌, ◌≤◌, ◌<◌, ◌≡◌, ◌⊎◌, true, Option, some, List, Any, Result, ok, err,
}
use mcp_bridge.Prelude.Int.{ℤ}
use mcp_bridge.GatewayPool.{GatewayEndpointWrapper, GatewayPool, SelectError, is_up}
use mcp_bridge.NamespaceRouter.{Regexp}
use mcp_bridge.PoolClient.{GatewayClient, PoolError, PoolClient, max_retries}

-- An endpoint of the list that the pointer names.
abbrev pub Names : ℕ → (GatewayEndpointWrapper → Type 0) → List GatewayEndpointWrapper → Type 0
Names a P = Any (λ e. (e.address ≡ a) × P e)

abbrev pub Anything : GatewayEndpointWrapper → Type 0
Anything e = Unit {0}

abbrev pub IsUp : GatewayEndpointWrapper → Type 0
IsUp e = is_up e ≡ true

-- A selection that succeeds gives an endpoint of the pool, and the endpoints stay.
abbrev pub Chosen : GatewayPool → GatewayPool × Result SelectError GatewayEndpointWrapper → Type 0
Chosen p (q, r) = (ep : GatewayEndpointWrapper) → r ≡ ok ep → Names ep.address Anything q.endpoints

module _ (E : Regexp) (C : GatewayClient) (intn : ℕ → ℕ)
    (below : (n : ℕ) → 0 < n → intn n < n) where
  -- Connected to an endpoint of the pool that is healthy, or failed with the current endpoint kept,
  -- after at most so many seconds more, doubled.
  abbrev pub Connected : Option ℕ → ℕ → PoolClient E C × Result PoolError (Unit {0}) → Type 0
  Connected before twice o =
      (((o.1 ≡ ok tt)
          × ((a : ℕ) × (o.0.current_endpoint ≡ some a) × Names a IsUp o.0.pool.endpoints))
        ⊎ ((e : PoolError) × (o.1 ≡ err e) × (o.0.current_endpoint ≡ before)))
      × (2 * o.0.slept ≤ twice)

  -- What may still be slept, doubled, with the attempts left and those done: each but the last
  -- sleeps one second more than the attempts before it.
  abbrev pub pauses : ℕ → ℕ → ℕ
  pauses zero attempt = 0
  pauses (suc zero) attempt = 0
  pauses (suc (suc left)) attempt = 2 * (attempt + 1) + pauses (suc left) (attempt + 1)

  -- Twice the most that `connectWithRetry` sleeps.
  abbrev pub longest : ℤ → ℕ
  longest count = max_retries count * (max_retries count - 1)
