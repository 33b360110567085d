-- ===== src/PoolClient/Operations.antt =====
-- The operations of services/router/internal/gateway/pool_client.go on a current endpoint: its
-- switch by tags, requests, answers, pings, and the ends of a connection.
use mcp_bridge.Prelude.{
  ℕ, ◌==◌, Bool, true, false, Option, none, some, List, [], ◌∷◌, if◌then◌else◌, String, Result, ok,
  err,
}
use mcp_bridge.GatewayPool.{
  GatewayEndpointWrapper, SelectError, panics, get_endpoint_by_tags, check_endpoint_health,
}
use mcp_bridge.NamespaceRouter.{Regexp, RoutingError, route_request}
use mcp_bridge.PoolClient.{
  GatewayClient, PoolError, not_connected, selection, client_failed, tags_failed, with_health,
  decrement_connections, PoolClient, on_endpoint, adopt, connect,
}

module _ (E : Regexp) (C : GatewayClient) where
  open C use {World, Request, Response, method}

  abbrev pub with_world : World → PoolClient E C → PoolClient E C
  with_world w c = record c { world = w }

  -- The current endpoint closed and no longer counted; it stays current.
  abbrev pub let_go : ℕ → PoolClient E C → PoolClient E C
  let_go b c = on_endpoint E C b decrement_connections (with_world (C.close b c.world).0 c)

  -- The current endpoint is closed if it is another one and still connected.
  unfoldable pub close_other : ℕ → Option ℕ → PoolClient E C → PoolClient E C
  close_other a none c = c
  close_other a (some b) c =
      let (w, up) = C.is_connected b c.world in
      if b == a then c else if up then let_go b (with_world w c) else with_world w c

  -- `SelectEndpointByTags` from the connection of the selected endpoint on.
  unfoldable pub reach : ℕ → PoolClient E C → PoolClient E C × Result PoolError (Unit {0})
  unfolding adopt
  reach a c =
      let (w, up) = C.is_connected a c.world in
      let (w', failure) = C.connect a w in
      if up then (adopt E C a (with_world w c), ok tt) else elim failure [
        | none ↦ (adopt E C a (with_world w' c), ok tt)
        | some e ↦ (on_endpoint E C a (with_health false) (with_world w' c), err (tags_failed e))
      ]

  abbrev pub switch_to_first :
      PoolClient E C
      → Result SelectError (List GatewayEndpointWrapper)
      → PoolClient E C × Result PoolError (Unit {0})
  switch_to_first c (err e) = (c, err (selection e))
  switch_to_first c (ok []) = (c, err (selection panics))
  switch_to_first c (ok (ep ∷ eps)) = reach ep.address (close_other ep.address c.current_endpoint c)

  unfoldable pub select_endpoint_by_tags :
      List String → PoolClient E C → PoolClient E C × Result PoolError (Unit {0})
  unfolding close_other reach
  select_endpoint_by_tags tags c = switch_to_first c (get_endpoint_by_tags c.pool tags)

  -- What a failed operation of the current endpoint's client does to the endpoint.
  abbrev pub settle :
      ℕ → PoolClient E C → Option String → PoolClient E C × Result PoolError (Unit {0})
  settle a c none = (c, ok tt)
  settle a c (some e) = (on_endpoint E C a (with_health false) c, err (client_failed e))

  abbrev pub on_routing :
      PoolClient E C
      → Result RoutingError (List String)
      → PoolClient E C × Result PoolError (Unit {0})
  on_routing c (err e) = (c, ok tt)
  on_routing c (ok tags) = select_endpoint_by_tags tags c

  -- `handleNamespaceRouting` and the test before it; the error is only logged.
  unfoldable pub handle_namespace_routing :
      String → PoolClient E C → PoolClient E C × Result PoolError (Unit {0})
  unfolding select_endpoint_by_tags
  handle_namespace_routing m c = elim c.namespace_router [
    | none ↦ (c, ok tt)
    | some nr ↦ if nr.enabled then on_routing c (route_request E nr m) else (c, ok tt)
  ]

  unfoldable pub send_current :
      Request → Option ℕ → PoolClient E C → PoolClient E C × Result PoolError (Unit {0})
  send_current req none c = (c, err not_connected)
  send_current req (some a) c =
      let (w, failure) = C.send a req c.world in settle a (with_world w c) failure

  unfoldable pub send_request :
      Request → PoolClient E C → PoolClient E C × Result PoolError (Unit {0})
  unfolding handle_namespace_routing send_current
  send_request req c =
      let (c', _) = handle_namespace_routing (method req) c in
      send_current req c'.current_endpoint c'

  abbrev pub answer :
      ℕ → PoolClient E C → Result String Response → PoolClient E C × Result PoolError Response
  answer a c (ok r) = (c, ok r)
  answer a c (err e) = (on_endpoint E C a (with_health false) c, err (client_failed e))

  unfoldable pub receive_current :
      Option ℕ → PoolClient E C → PoolClient E C × Result PoolError Response
  receive_current none c = (c, err not_connected)
  receive_current (some a) c = let (w, r) = C.receive a c.world in answer a (with_world w c) r

  unfoldable pub receive_response : PoolClient E C → PoolClient E C × Result PoolError Response
  unfolding receive_current
  receive_response c = receive_current c.current_endpoint c

  unfoldable pub ping_current :
      Option ℕ → PoolClient E C → PoolClient E C × Result PoolError (Unit {0})
  ping_current none c = (c, err not_connected)
  ping_current (some a) c = let (w, failure) = C.ping a c.world in settle a (with_world w c) failure

  unfoldable pub send_ping : PoolClient E C → PoolClient E C × Result PoolError (Unit {0})
  unfolding ping_current
  send_ping c = ping_current c.current_endpoint c

  unfoldable pub ask_current : Option ℕ → PoolClient E C → PoolClient E C × Bool
  ask_current none c = (c, false)
  ask_current (some a) c =
      let (w, up) = C.is_connected a c.world in
      (if up then with_world w c else on_endpoint E C a (with_health false) (with_world w c), up)

  unfoldable pub is_connected : PoolClient E C → PoolClient E C × Bool
  unfolding ask_current
  is_connected c = ask_current c.current_endpoint c

  -- `Close` of the pool: every client is closed, and an error says that some failed.
  unfoldable pub close_all : List GatewayEndpointWrapper → World → World × Bool
  close_all [] w = (w, false)
  close_all (ep ∷ eps) w =
      let (w', failure) = C.close ep.address w in
      let (w'', failed) = close_all eps w' in (w'', elim failure [ none ↦ failed | some e ↦ true ])

  -- The current endpoint is closed and given up.
  abbrev pub leave : ℕ → PoolClient E C → PoolClient E C
  leave a c = record (let_go a c) { current_endpoint = none }

  -- The clients of the pool closed, after an error of the current one or none.
  abbrev pub close_pool : Option String → PoolClient E C → PoolClient E C × Bool
  close_pool none c =
      let (w, failed) = close_all c.pool.endpoints c.world in (with_world w c, failed)
  close_pool (some e) c = (with_world (close_all c.pool.endpoints c.world).0 c, true)

  unfoldable pub close_current : Option ℕ → PoolClient E C → PoolClient E C × Bool
  unfolding close_all
  close_current none c = close_pool none c
  close_current (some a) c = close_pool (C.close a c.world).1 (leave a c)

  -- The result says whether an error is returned.
  unfoldable pub close : PoolClient E C → PoolClient E C × Bool
  unfolding close_current
  close c = close_current c.current_endpoint c

  -- `ForceReconnect` up to its call of `Connect`.
  unfoldable pub drop_current : Option ℕ → PoolClient E C → PoolClient E C
  drop_current none c = c
  drop_current (some a) c = record (on_endpoint E C a (with_health false) (let_go a c)) {
    current_endpoint = none;
  }

  unfoldable pub force_reconnect :
      (ℕ → ℕ) → PoolClient E C → PoolClient E C × Result PoolError (Unit {0})
  unfolding drop_current
  force_reconnect intn c = connect E C intn (drop_current c.current_endpoint c)

  -- A round of the pool's health checks for one endpoint, `checkEndpointHealth`.
  unfoldable pub check_endpoint : ℕ → ℕ → ℕ → PoolClient E C → PoolClient E C
  check_endpoint healthy_threshold unhealthy_threshold a c =
      let (w, up) = C.is_connected a c.world in
      on_endpoint E C a
        (λ ep. record ep {
          health = check_endpoint_health healthy_threshold unhealthy_threshold up ep.health;
        })
        (with_world w c)
