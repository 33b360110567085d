-- ===== src/PoolClient/Runs.antt =====
-- Any operations of the pool's client one after another, and what they make of the counts.
use mcp_bridge.Prelude.{ℕ, ◌+◌, List, [], ◌∷◌, String}
use mcp_bridge.GatewayPool.{}
use mcp_bridge.NamespaceRouter.{Regexp}
use mcp_bridge.PoolClient.{GatewayClient, PoolClient, connect}
use mcp_bridge.PoolClient.Operations.{
  select_endpoint_by_tags, handle_namespace_routing, send_request, receive_response, send_ping,
  is_connected, close, force_reconnect, check_endpoint,
}
use mcp_bridge.PoolClient.Steps.{missed}

module _ (E : Regexp) (C : GatewayClient) where
  open C use {World, Request, Response, method}

  -- An operation, with the thresholds of a health check.
  pub data Op : Type 0 where
    connecting receiving pinging asking reconnecting closing : Op
    sending : Request → Op
    by_tags : List String → Op
    checking : ℕ → ℕ → ℕ → Op

  module _ (intn : ℕ → ℕ) where
    -- What the operation does to the client, and the switches by tags whose connection failed in
    -- it.
    unfoldable pub perform : Op → PoolClient E C → PoolClient E C × ℕ
    perform connecting c = ((connect E C intn c).0, 0)
    perform receiving c = ((receive_response E C c).0, 0)
    perform pinging c = ((send_ping E C c).0, 0)
    perform asking c = ((is_connected E C c).0, 0)
    perform reconnecting c = ((force_reconnect E C intn c).0, 0)
    perform closing c = ((close E C c).0, 0)
    perform (sending req) c =
        ((send_request E C req c).0, missed (handle_namespace_routing E C (method req) c).1)
    perform (by_tags tags) c = let (c', r) = select_endpoint_by_tags E C tags c in (c', missed r)
    perform (checking t u a) c = (check_endpoint E C t u a c, 0)

    unfoldable pub perform_all : List Op → PoolClient E C → PoolClient E C × ℕ
    perform_all [] c = (c, 0)
    perform_all (op ∷ ops) c =
        let (c', n) = perform op c in let (c'', m) = perform_all ops c' in (c'', n + m)
