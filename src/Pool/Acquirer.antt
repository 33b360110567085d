-- ===== src/Pool/Acquirer.antt =====
-- Acquiring, releasing, checking and closing: connection_acquirer.go and the rest of pool.go. Each
-- function is a stretch of code between two waits and runs whole here; Pool/Overlapping has callers
-- whose tests of the size and creations overlap. `Release` is modelled for a connection of the pool
-- itself.
use mcp_bridge.Prelude.{
  ℕ, ◌+◌, Bool, true, Option, none, some, List, [], ◌∷◌, ◌++◌, ltb, if◌then◌else◌, length, map,
  String,
}
use mcp_bridge.Prelude.Int.{pos, ◌+ℤ◌, ◌-ℤ◌}
use mcp_bridge.Pool.{
  Pool, PooledConn, map_size, keys_of, is_valid_connection, create_connection, remove_connection,
  put_idle,
}

unfoldable pub activate : PooledConn → ℕ → PooledConn
activate pc now = record pc { last_used_at = now; usage_count = pc.usage_count + 1 }

-- The first idle connection, which is out of the channel in `p`.
unfoldable pub use_idle : Pool → (String → Bool) → ℕ → PooledConn → Pool × Option PooledConn
unfolding is_valid_connection activate remove_connection
use_idle p healthy now pc =
    if is_valid_connection p healthy pc now
    then (
      record p {
        active_connections = p.active_connections +ℤ pos 1;
        idle_connections = p.idle_connections -ℤ pos 1;
      },
      some (activate pc now),
    )
    else (remove_connection p pc, none)

unfoldable pub receive_idle :
    Pool → (String → Bool) → ℕ → List PooledConn → Pool × Option PooledConn
unfolding use_idle
receive_idle p healthy now [] = (p, none)
receive_idle p healthy now (pc ∷ rest) = use_idle (record p { idle = rest }) healthy now pc

unfoldable pub try_get_idle_connection : Pool → (String → Bool) → ℕ → Pool × Option PooledConn
unfolding receive_idle
try_get_idle_connection p healthy now = receive_idle p healthy now p.idle

-- What `AcquireConnection` comes to without waiting.
pub data Acquired : Type 0 where
  got : PooledConn → Acquired
  create_failed must_wait pool_closed : Acquired

abbrev pub can_create_new_connection : Pool → Bool
can_create_new_connection p = ltb (map_size p.connections) p.config.max_size

unfoldable pub count_active : Pool × Option PooledConn → Pool × Acquired
count_active (p, none) = (p, create_failed)
count_active (p, some pc) =
    (record p { active_connections = p.active_connections +ℤ pos 1 }, got pc)

-- `none` for a panic, as below.
unfoldable pub try_create_new_connection : Pool → Option String → ℕ → Option (Pool × Acquired)
unfolding create_connection count_active
try_create_new_connection p answer now =
    if can_create_new_connection p
    then (elim (create_connection p answer now) [
      | none ↦ none
      | some created ↦ some (count_active created)
    ])
    else some (p, must_wait)

unfoldable pub or_create : Option String → ℕ → Pool × Option PooledConn → Option (Pool × Acquired)
unfolding try_create_new_connection
or_create answer now (p, some pc) = some (p, got pc)
or_create answer now (p, none) = try_create_new_connection p answer now

unfoldable pub acquire_connection :
    Pool → (String → Bool) → Option String → ℕ → Option (Pool × Acquired)
unfolding or_create try_get_idle_connection
acquire_connection p healthy answer now =
    if p.closed
    then some (p, pool_closed)
    else or_create answer now
        (try_get_idle_connection (record p { wait_count = p.wait_count + 1 }) healthy now)

-- `handleReceivedConnection`, of a connection.
unfoldable pub handle_received : Pool → PooledConn → ℕ → Pool × PooledConn
unfolding activate
handle_received p pc now =
    (record p { active_connections = p.active_connections +ℤ pos 1 }, activate pc now)

-- A valid connection goes to the first waiter, whose channel is returned, or back to the pool.
unfoldable pub pass_on : Pool → PooledConn → List ℕ → Pool × Option ℕ
unfolding put_idle
pass_on p pc [] = (put_idle p pc, none)
pass_on p pc (w ∷ ws) = (record p { waiters = ws }, some w)

unfoldable pub release : Pool → PooledConn → (String → Bool) → ℕ → Pool × Option ℕ
unfolding is_valid_connection remove_connection pass_on
release p pc healthy now =
    if p.closed
    then (record p { close_calls = p.close_calls ++ pc.id ∷ [] }, none)
    else let p' = record p { active_connections = p.active_connections -ℤ pos 1 } in
      if is_valid_connection p' healthy pc now
      then pass_on p' pc p'.waiters
      else (remove_connection p' pc, none)

-- `processHealthCheckedConnections`, while the pool is open.
unfoldable pub check_one : Pool → PooledConn → (String → Bool) → ℕ → Pool
unfolding is_valid_connection remove_connection put_idle
check_one p pc healthy now =
    if is_valid_connection p healthy pc now then put_idle p pc else remove_connection p pc

unfoldable pub process_checked : Pool → List PooledConn → (String → Bool) → ℕ → Pool
unfolding check_one
process_checked p [] healthy now = p
process_checked p (pc ∷ pcs) healthy now =
    process_checked (check_one p pc healthy now) pcs healthy now

unfoldable pub check_health : Pool → (String → Bool) → ℕ → Pool
unfolding process_checked
check_health p healthy now =
    if p.closed
    then p
    else process_checked
        (record p { idle = []; idle_connections = p.idle_connections -ℤ pos (length p.idle) })
        p.idle healthy now

abbrev pub conn_id : PooledConn → String
conn_id pc = pc.id

-- The pool and the waiters' channels that are closed.
unfoldable pub close : Pool → Pool × List ℕ
close p = if p.closed then (p, []) else (
  record p {
    closed = true;
    connections = none;
    idle = [];
    waiters = [];
    close_calls = p.close_calls ++ (map conn_id p.idle ++ keys_of p.connections);
  },
  p.waiters,
)
