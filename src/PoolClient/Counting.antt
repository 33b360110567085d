-- ===== src/PoolClient/Counting.antt =====
-- The counts of active connections of the endpoints over any operations of the pool's client.
use mcp_bridge.Prelude.{
  ℕ, zero, suc, ◌+◌, ◌≡◌, refl, sym, subst, inl, inr, Option, some, Option-cases, Result, ok, err,
}
use mcp_bridge.Prelude.Int.{}
use mcp_bridge.GatewayPool.{
  GatewayEndpointWrapper, GatewayPool, SelectError, panics, no_healthy_endpoints, no_endpoints,
  no_matching_tags, select_endpoint, select_for_retry,
}
use mcp_bridge.NamespaceRouter.{Regexp}
use mcp_bridge.PoolClient.{
  GatewayClient, PoolError, PoolClient, adopt, pause, give_up, retry_from, connect_with_retry,
  connect_selected, connect_chosen, connect,
}
use mcp_bridge.PoolClient.Counts.{
  Counts, modify-Counts, increment-Counts, select_for_retry-endpoints, select_endpoint-endpoints,
  first_choice-endpoints, Result-cases,
}

module _ (E : Regexp) (C : GatewayClient) where
  abbrev pub IsCounted : ℕ → PoolClient E C → Type 0
  IsCounted k c = Counts k c.current_endpoint c.pool.endpoints

  pub adopt-IsCounted :
      (k a : ℕ) (current : Option ℕ) (c : PoolClient E C)
      → Counts k current c.pool.endpoints
      → IsCounted k (adopt E C a c)
  unfolding adopt
  adopt-IsCounted k a current c h =
      modify-Counts k (some a) a _ _ (λ e. refl) (λ e. refl)
        (increment-Counts k current a c.pool.endpoints h)

  module _ (intn : ℕ → ℕ) where
    pause-IsCounted :
        (k left attempt : ℕ) (c : PoolClient E C)
        → IsCounted k c
        → IsCounted k (pause E C left attempt c)
    pause-IsCounted k zero attempt c h = h
    pause-IsCounted k (suc left) attempt c h = h

    give_up-IsCounted :
        (k left total : ℕ) (e : SelectError) (rest : PoolClient E C × Result PoolError (Unit {0}))
        (c : PoolClient E C)
        → IsCounted k rest.0
        → IsCounted k c
        → IsCounted k (give_up E C left total e rest c).0
    give_up-IsCounted k left total panics rest c r h = h
    give_up-IsCounted k zero total no_endpoints rest c r h = h
    give_up-IsCounted k zero total no_healthy_endpoints rest c r h = h
    give_up-IsCounted k zero total no_matching_tags rest c r h = h
    give_up-IsCounted k (suc left) total no_endpoints rest c r h = r
    give_up-IsCounted k (suc left) total no_healthy_endpoints rest c r h = r
    give_up-IsCounted k (suc left) total no_matching_tags rest c r h = r

    retry_from-IsCounted :
        (k total left attempt : ℕ) (c : PoolClient E C)
        → IsCounted k c
        → IsCounted k (retry_from E C intn total left attempt c).0
    unfolding retry_from
    retry_from-IsCounted k total zero attempt c h = h
    retry_from-IsCounted k total (suc left) attempt c h =
        let h' =
          subst (λ eps. Counts k c.current_endpoint eps)
            (sym (select_for_retry-endpoints intn c.pool)) h in
        elim (Result-cases (select_for_retry intn c.pool).1) [
          | inl (e, eq) ↦
              rw (retry_from, eq)
                (give_up-IsCounted k left total e _ _
                  (retry_from-IsCounted k total left (attempt + 1) _
                    (pause-IsCounted k left attempt _ h'))
                  h')
          | inr (ep, eq) ↦
              rw (retry_from, eq)
                (elim (Option-cases (C.connect ep.address c.world).1) [
                  | inl good ↦ rw good (adopt-IsCounted k ep.address c.current_endpoint _ h')
                  | inr (e, bad) ↦ rw bad (
                      retry_from-IsCounted k total left (attempt + 1) _ (
                        pause-IsCounted k left attempt _ (
                          modify-Counts k c.current_endpoint ep.address _ _ (λ e. refl) (λ e. refl)
                            h')))
                ])
        ]

    connect_selected-IsCounted :
        (k : ℕ) (ep : GatewayEndpointWrapper) (c : PoolClient E C)
        → IsCounted k c
        → IsCounted k (connect_selected E C intn ep c).0
    unfolding connect_selected connect_with_retry
    connect_selected-IsCounted k ep c h = elim (Option-cases (C.connect ep.address c.world).1) [
      | inl good ↦
          rw (connect_selected, good)
            (adopt-IsCounted k ep.address c.current_endpoint
              (record c { world = (C.connect ep.address c.world).0 }) h)
      | inr (e, bad) ↦
          rw (connect_selected, bad)
            (retry_from-IsCounted k _ _ 0 _
              (modify-Counts k c.current_endpoint ep.address _ _ (λ e. refl) (λ e. refl) h))
    ]

    connect_chosen-IsCounted :
        (k : ℕ) (c : PoolClient E C) (s : GatewayPool × Result SelectError GatewayEndpointWrapper)
        → s.0.endpoints ≡ c.pool.endpoints
        → IsCounted k c
        → IsCounted k (connect_chosen E C intn c s).0
    connect_chosen-IsCounted k c (q, ok ep) e h =
        connect_selected-IsCounted k ep (record c { pool = q })
          (subst (λ eps. Counts k c.current_endpoint eps) (sym e) h)
    connect_chosen-IsCounted k c (q, err x) e h =
        subst (λ eps. Counts k c.current_endpoint eps) (sym e) h

    pub connect-IsCounted :
        (k : ℕ) (c : PoolClient E C) → IsCounted k c → IsCounted k (connect E C intn c).0
    unfolding connect
    connect-IsCounted k c h =
        connect_chosen-IsCounted k c _
          (first_choice-endpoints intn c.pool (select_endpoint intn c.pool)
            (select_endpoint-endpoints intn c.pool))
          h
