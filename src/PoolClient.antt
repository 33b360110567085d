-- ===== src/PoolClient.antt =====
-- The client of the gateway pool, services/router/internal/gateway/pool_client.go, over the pool's
-- selection and the routing of namespaces. The clients of the endpoints are the parameter
-- `GatewayClient`; waiting counts seconds, and what is logged is left out.
pub mod Operations
pub mod Counts
pub mod Counting
pub mod Steps
pub mod Runs
pub mod Connecting
mod Examples
use mcp_bridge.Prelude.{
  ℕ, zero, suc, ◌+◌, ◌==◌, Bool, true, false, Option, none, some, List, [], ◌∷◌, if◌then◌else◌,
  String, Result, ok, err,
}
use mcp_bridge.Prelude.Int.{ℤ, pos, negsuc, ◌+ℤ◌}
use mcp_bridge.GatewayPool.{
  GatewayEndpointWrapper, GatewayPool, SelectError, no_healthy_endpoints, no_endpoints,
  no_matching_tags, panics, update_health, select_endpoint, select_for_retry, get_endpoint_by_tags,
}
use mcp_bridge.NamespaceRouter.{Regexp, NamespaceRouter, route_request}

-- The clients of the endpoints, each named by its wrapper's address, over what they act on. `none`
-- is no error.
pub record GatewayClient : Type 1 where
  pub World : Type 0
  pub Request : Type 0
  pub Response : Type 0
  pub method : Request → String
  pub connect : ℕ → World → World × Option String
  pub send : ℕ → Request → World → World × Option String
  pub receive : ℕ → World → World × Result String Response
  pub ping : ℕ → World → World × Option String
  pub close : ℕ → World → World × Option String
  pub is_connected : ℕ → World → World × Bool

pub data PoolError : Type 0 where
  not_connected : PoolError
  selection : SelectError → PoolError
  no_endpoints_after : ℕ → SelectError → PoolError
  failed_after : ℕ → PoolError
  client_failed : String → PoolError
  tags_failed : String → PoolError

-- The update of the wrapper that a pointer names.
unfoldable pub modify :
    ℕ
    → (GatewayEndpointWrapper → GatewayEndpointWrapper)
    → List GatewayEndpointWrapper
    → List GatewayEndpointWrapper
modify a f [] = []
modify a f (ep ∷ eps) = (if ep.address == a then f ep else ep) ∷ modify a f eps

abbrev pub with_health : Bool → GatewayEndpointWrapper → GatewayEndpointWrapper
with_health b ep = record ep { health = update_health b ep.health }

abbrev pub increment_connections : GatewayEndpointWrapper → GatewayEndpointWrapper
increment_connections ep = record ep { active_conns = ep.active_conns +ℤ pos 1 }

abbrev pub decrement_connections : GatewayEndpointWrapper → GatewayEndpointWrapper
decrement_connections ep = record ep { active_conns = ep.active_conns +ℤ negsuc 0 }

-- `maxRetries` of `connectWithRetry`.
abbrev pub max_retries : ℤ → ℕ
max_retries (pos zero) = 3
max_retries (pos (suc n)) = suc n
max_retries (negsuc n) = 3

-- `SelectEndpoint`, and `SelectEndpointForRetry` after its error. A panic is not caught.
abbrev pub first_choice :
    (ℕ → ℕ)
    → GatewayPool × Result SelectError GatewayEndpointWrapper
    → GatewayPool × Result SelectError GatewayEndpointWrapper
first_choice intn (pool', ok ep) = (pool', ok ep)
first_choice intn (pool', err panics) = (pool', err panics)
first_choice intn (pool', err e) = select_for_retry intn pool'

module _ (E : Regexp) (C : GatewayClient) where
  open C use {World, Request, Response, method}

  pub record PoolClient : Type 0 where
    pub pool : GatewayPool
    pub retry_count : ℤ
    pub namespace_router : Option (NamespaceRouter E)
    pub current_endpoint : Option ℕ
    pub world : World
    pub slept : ℕ

  abbrev pub on_endpoint :
      ℕ → (GatewayEndpointWrapper → GatewayEndpointWrapper) → PoolClient → PoolClient
  on_endpoint a f c = record c { pool = record c.pool { endpoints = modify a f c.pool.endpoints } }

  abbrev pub sleep : ℕ → PoolClient → PoolClient
  sleep n c = record c { slept = c.slept + n }

  -- What is done once an endpoint is connected.
  unfoldable pub adopt : ℕ → PoolClient → PoolClient
  adopt a c =
      on_endpoint a (with_health true)
        (on_endpoint a increment_connections (record c { current_endpoint = some a }))

  -- The pause after an attempt, unless it was the last.
  abbrev pub pause : ℕ → ℕ → PoolClient → PoolClient
  pause zero attempt c = c
  pause (suc left) attempt c = sleep (attempt + 1) c

  abbrev pub give_up :
      ℕ
      → ℕ
      → SelectError
      → PoolClient × Result PoolError (Unit {0})
      → PoolClient
      → PoolClient × Result PoolError (Unit {0})
  give_up left total panics rest c = (c, err (selection panics))
  give_up zero total e rest c = (c, err (no_endpoints_after total e))
  give_up (suc left) total e rest c = rest

  module _ (intn : ℕ → ℕ) where
    -- The loop of `connectWithRetry`, by the attempts left and those done.
    unfoldable pub retry_from : ℕ → ℕ → ℕ → PoolClient → PoolClient × Result PoolError (Unit {0})
    retry_from total zero attempt c = (c, err (failed_after total))
    retry_from total (suc left) attempt c =
        let (pool', r) = select_for_retry intn c.pool in
        let c' = record c { pool = pool' } in
        elim r [
          | err e ↦
              give_up left total e (retry_from total left (attempt + 1) (pause left attempt c')) c'
          | ok ep ↦
              let (w, failure) = C.connect ep.address c'.world in
              let c'' = record c' { world = w } in
              elim failure [
                | none ↦ (adopt ep.address c'', ok tt)
                | some e ↦
                    retry_from total left (attempt + 1)
                      (pause left attempt (on_endpoint ep.address (with_health false) c''))
              ]
        ]

    unfoldable pub connect_with_retry : PoolClient → PoolClient × Result PoolError (Unit {0})
    unfolding retry_from
    connect_with_retry c = retry_from (max_retries c.retry_count) (max_retries c.retry_count) 0 c

    -- `Connect` once an endpoint is selected.
    unfoldable pub connect_selected :
        GatewayEndpointWrapper → PoolClient → PoolClient × Result PoolError (Unit {0})
    unfolding connect_with_retry adopt
    connect_selected ep c =
        let (w, failure) = C.connect ep.address c.world in
        let c' = record c { world = w } in
        elim failure [
          | none ↦ (adopt ep.address c', ok tt)
          | some e ↦ connect_with_retry (on_endpoint ep.address (with_health false) c')
        ]

    abbrev pub connect_chosen :
        PoolClient
        → GatewayPool × Result SelectError GatewayEndpointWrapper
        → PoolClient × Result PoolError (Unit {0})
    connect_chosen c (pool', ok ep) = connect_selected ep (record c { pool = pool' })
    connect_chosen c (pool', err e) = (record c { pool = pool' }, err (selection e))

    unfoldable pub connect : PoolClient → PoolClient × Result PoolError (Unit {0})
    unfolding connect_selected
    connect c = connect_chosen c (first_choice intn (select_endpoint intn c.pool))
