-- ===== src/PoolClient/Steps.antt =====
-- What each operation on the current endpoint makes of the counts of connections.
use mcp_bridge.Prelude.{
  ℕ, ◌+◌, ◌==◌, ◌≡◌, refl, subst, inl, inr, arith, Bool-cases, Option, none, some, Option-cases,
  List, [], ◌∷◌, if_cases, String, Result, ok, err,
}
use mcp_bridge.Prelude.Int.{}
use mcp_bridge.GatewayPool.{GatewayEndpointWrapper, SelectError}
use mcp_bridge.NamespaceRouter.{Regexp, RoutingError, route_request}
use mcp_bridge.PoolClient.{GatewayClient, PoolError, tags_failed, PoolClient, adopt}
use mcp_bridge.PoolClient.Counts.{
  Counts, modify-Counts, decrement-Counts, forget-Counts, recall-Counts, weaken-Counts,
}
use mcp_bridge.PoolClient.Counting.{IsCounted, adopt-IsCounted}
use mcp_bridge.PoolClient.Operations.{
  close_other, reach, switch_to_first, select_endpoint_by_tags, settle, on_routing,
  handle_namespace_routing, send_current, receive_current, ping_current, ask_current, close_pool,
  close_current, drop_current, answer, with_world, leave,
}

-- 1 for a switch whose connection failed.
abbrev pub missed : Result PoolError (Unit {0}) → ℕ
missed (err (tags_failed e)) = 1
missed r = 0

module _ (E : Regexp) (C : GatewayClient) where
  open C use {World, Request, Response, method}

  -- What is sure of the counts once the current endpoint is let go for the endpoint `a`.
  pub close_other-IsCounted :
      (k a : ℕ) (b : Option ℕ) (c : PoolClient E C)
      → c.current_endpoint ≡ b
      → IsCounted E C k c
      → let c' = close_other E C a b c in
        Counts k none c'.pool.endpoints × (c'.current_endpoint ≡ b)
  unfolding close_other
  close_other-IsCounted k a none c e h = (forget-Counts k c.current_endpoint _ h, e)
  close_other-IsCounted k a (some b) c e h = elim (Bool-cases (b == a)) [
    | inl same ↦ rw same (forget-Counts k c.current_endpoint _ h, e)
    | inr other ↦ rw other (elim (Bool-cases (C.is_connected b c.world).1) [
      | inl up ↦ rw up (decrement-Counts k b _ (subst (λ o. Counts k o c.pool.endpoints) e h), e)
      | inr down ↦ rw down (forget-Counts k c.current_endpoint _ h, e)
    ])
  ]

  -- An operation that missed no switch.
  pub as_before : (k : ℕ) (c : PoolClient E C) → IsCounted E C k c → IsCounted E C (k + 0) c
  as_before k c h = weaken-Counts k _ _ _ (omega arith) h

  pub reach-IsCounted :
      (k a : ℕ) (c : PoolClient E C)
      → Counts k none c.pool.endpoints
      → let (c', r) = reach E C a c in IsCounted E C (k + missed r) c'
  unfolding reach
  reach-IsCounted k a c h = elim (Bool-cases (C.is_connected a c.world).1) [
    | inl up ↦
        rw (reach, up)
          (as_before k (adopt E C a (with_world E C (C.is_connected a c.world).0 c))
            (adopt-IsCounted E C k a none (with_world E C (C.is_connected a c.world).0 c) h))
    | inr down ↦ elim (Option-cases (C.connect a (C.is_connected a c.world).0).1) [
      | inl good ↦
          rw (reach, down, good)
            (as_before k
              (adopt E C a (with_world E C (C.connect a (C.is_connected a c.world).0).0 c))
              (adopt-IsCounted E C k a none
                (with_world E C (C.connect a (C.is_connected a c.world).0).0 c) h))
      | inr (e, bad) ↦
          rw (reach, down, bad)
            (modify-Counts (k + 1) c.current_endpoint a _ _ (λ e. refl) (λ e. refl)
              (recall-Counts k c.current_endpoint c.pool.endpoints h))
    ]
  ]

  pub switch_to_first-IsCounted :
      (k : ℕ) (c : PoolClient E C) (r : Result SelectError (List GatewayEndpointWrapper))
      → IsCounted E C k c
      → let (c', r') = switch_to_first E C c r in IsCounted E C (k + missed r') c'
  switch_to_first-IsCounted k c (err e) h = as_before k c h
  switch_to_first-IsCounted k c (ok []) h = as_before k c h
  switch_to_first-IsCounted k c (ok (ep ∷ eps)) h =
      reach-IsCounted k ep.address (close_other E C ep.address c.current_endpoint c)
        (close_other-IsCounted k ep.address c.current_endpoint c refl h).0

  pub select_endpoint_by_tags-IsCounted :
      (k : ℕ) (tags : List String) (c : PoolClient E C)
      → IsCounted E C k c
      → let (c', r) = select_endpoint_by_tags E C tags c in IsCounted E C (k + missed r) c'
  unfolding select_endpoint_by_tags
  select_endpoint_by_tags-IsCounted k tags c h = switch_to_first-IsCounted k c _ h

  pub on_routing-IsCounted :
      (k : ℕ) (c : PoolClient E C) (r : Result RoutingError (List String))
      → IsCounted E C k c
      → let (c', r') = on_routing E C c r in IsCounted E C (k + missed r') c'
  on_routing-IsCounted k c (err e) h = as_before k c h
  on_routing-IsCounted k c (ok tags) h = select_endpoint_by_tags-IsCounted k tags c h

  pub handle_namespace_routing-IsCounted :
      (k : ℕ) (m : String) (c : PoolClient E C)
      → IsCounted E C k c
      → let (c', r) = handle_namespace_routing E C m c in IsCounted E C (k + missed r) c'
  unfolding handle_namespace_routing
  handle_namespace_routing-IsCounted k m c h = elim (Option-cases c.namespace_router) [
    | inl off ↦ rw (handle_namespace_routing, off) (as_before k c h)
    | inr (nr, on) ↦
        rw (handle_namespace_routing, on)
          (if_cases
            (λ (s : PoolClient E C × Result PoolError (Unit {0})).
              IsCounted E C (k + missed s.1) s.0)
            nr.enabled _ _ (λ _. on_routing-IsCounted k c (route_request E nr m) h)
            (λ _. as_before k c h))
  ]

  pub settle-IsCounted :
      (k a : ℕ) (c : PoolClient E C) (failure : Option String)
      → IsCounted E C k c
      → IsCounted E C k (settle E C a c failure).0
  settle-IsCounted k a c none h = h
  settle-IsCounted k a c (some e) h =
      modify-Counts k c.current_endpoint a _ _ (λ e. refl) (λ e. refl) h

  pub send_current-IsCounted :
      (k : ℕ) (req : Request) (a : Option ℕ) (c : PoolClient E C)
      → IsCounted E C k c
      → IsCounted E C k (send_current E C req a c).0
  unfolding send_current
  send_current-IsCounted k req none c h = h
  send_current-IsCounted k req (some a) c h =
      settle-IsCounted k a (with_world E C (C.send a req c.world).0 c) (C.send a req c.world).1 h

  pub answer-IsCounted :
      (k a : ℕ) (c : PoolClient E C) (r : Result String Response)
      → IsCounted E C k c
      → IsCounted E C k (answer E C a c r).0
  answer-IsCounted k a c (ok r) h = h
  answer-IsCounted k a c (err e) h =
      modify-Counts k c.current_endpoint a _ _ (λ e. refl) (λ e. refl) h

  pub receive_current-IsCounted :
      (k : ℕ) (a : Option ℕ) (c : PoolClient E C)
      → IsCounted E C k c
      → IsCounted E C k (receive_current E C a c).0
  unfolding receive_current
  receive_current-IsCounted k none c h = h
  receive_current-IsCounted k (some a) c h =
      answer-IsCounted k a (with_world E C (C.receive a c.world).0 c) (C.receive a c.world).1 h

  pub ping_current-IsCounted :
      (k : ℕ) (a : Option ℕ) (c : PoolClient E C)
      → IsCounted E C k c
      → IsCounted E C k (ping_current E C a c).0
  unfolding ping_current
  ping_current-IsCounted k none c h = h
  ping_current-IsCounted k (some a) c h =
      settle-IsCounted k a (with_world E C (C.ping a c.world).0 c) (C.ping a c.world).1 h

  pub ask_current-IsCounted :
      (k : ℕ) (a : Option ℕ) (c : PoolClient E C)
      → IsCounted E C k c
      → IsCounted E C k (ask_current E C a c).0
  unfolding ask_current
  ask_current-IsCounted k none c h = h
  ask_current-IsCounted k (some a) c h =
      if_cases (λ (c' : PoolClient E C). IsCounted E C k c') (C.is_connected a c.world).1 _ _
        (λ _. h) (λ _. modify-Counts k c.current_endpoint a _ _ (λ e. refl) (λ e. refl) h)

  pub close_pool-IsCounted :
      (k : ℕ) (failure : Option String) (c : PoolClient E C)
      → IsCounted E C k c
      → IsCounted E C k (close_pool E C failure c).0
  close_pool-IsCounted k none c h = h
  close_pool-IsCounted k (some e) c h = h

  pub close_current-IsCounted :
      (k : ℕ) (a : Option ℕ) (c : PoolClient E C)
      → c.current_endpoint ≡ a
      → IsCounted E C k c
      → IsCounted E C k (close_current E C a c).0
  unfolding close_current
  close_current-IsCounted k none c e h = close_pool-IsCounted k none c h
  close_current-IsCounted k (some a) c e h =
      close_pool-IsCounted k (C.close a c.world).1 (leave E C a c)
        (decrement-Counts k a _ (subst (λ o. Counts k o c.pool.endpoints) e h))

  pub drop_current-IsCounted :
      (k : ℕ) (a : Option ℕ) (c : PoolClient E C)
      → c.current_endpoint ≡ a
      → IsCounted E C k c
      → IsCounted E C k (drop_current E C a c)
  unfolding drop_current
  drop_current-IsCounted k none c e h = h
  drop_current-IsCounted k (some a) c e h =
      modify-Counts k none a _ _ (λ e. refl) (λ e. refl)
        (decrement-Counts k a _ (subst (λ o. Counts k o c.pool.endpoints) e h))
