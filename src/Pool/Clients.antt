-- ===== src/Pool/Clients.antt =====
-- The pool with the callers of `Acquire` and `Release` around it, whose sections follow one another
-- in any order. A caller's channel, `make(chan *pooledConn, 1)`, has a number.
use mcp_bridge.Prelude.{
  ℕ, ◌+◌, ◌==◌, Bool, not, Option, none, some, List, [], ◌∷◌, ◌++◌, ltb, if◌then◌else◌, length,
  keep, String, str_eq, count_if,
}
use mcp_bridge.Pool.{Pool, PooledConn, maintain}
use mcp_bridge.Pool.Acquirer.{
  Acquired, got, create_failed, must_wait, pool_closed, acquire_connection, handle_received,
  release, check_health, close,
}

-- `arriving` are about to put their channel into the queue and `waiting` have done so; `mail` holds
-- the connections in the callers' channels, `shut` the channels that are closed, and `held` the
-- connections that callers have.
pub record World : Type 0 where
  pub pool : Pool
  pub held : List PooledConn
  pub arriving : List ℕ
  pub waiting : List ℕ
  pub mail : List (ℕ × PooledConn)
  pub shut : List ℕ
  pub next_channel : ℕ

-- A section and what it is told: the health of connections, the answers of `Create` and the time.
-- `give_up` is for a context that is done and for a timeout, in either wait.
pub data Event : Type 0 where
  acquire : (String → Bool) → Option String → ℕ → Event
  enqueue give_up : ℕ → Event
  receive : ℕ → ℕ → Event
  release_held : String → (String → Bool) → ℕ → Event
  maintain_size : (ℕ → Option String) → ℕ → Event
  health_check : (String → Bool) → ℕ → Event
  close_pool : Event

abbrev pub other : ℕ → ℕ → Bool
other t u = not (u == t)

abbrev pub is_in : ℕ → List ℕ → Bool
is_in t xs = ltb 0 (count_if (λ u. u == t) xs)

unfoldable pub take_held : String → List PooledConn → Option (PooledConn × List PooledConn)
take_held id [] = none
take_held id (pc ∷ pcs) =
    let rest = take_held id pcs in
    if str_eq pc.id id
    then some (pc, pcs)
    else (elim rest [ none ↦ none | some (found, others) ↦ some (found, pc ∷ others) ])

unfoldable pub take_mail : ℕ → List (ℕ × PooledConn) → Option (PooledConn × List (ℕ × PooledConn))
take_mail t [] = none
take_mail t ((u, pc) ∷ ms) =
    let rest = take_mail t ms in
    if u == t
    then some (pc, ms)
    else (elim rest [ none ↦ none | some (found, others) ↦ some (found, (u, pc) ∷ others) ])

-- `waiter <- pc`: none if the channel is full, where `Release` would block, and if it is closed.
unfoldable pub deliver : World → Pool × Option ℕ → PooledConn → Option World
unfolding take_mail
deliver w (p, none) pc = some (record w { pool = p })
deliver w (p, some t) pc = if is_in t w.shut then none else elim (take_mail t w.mail) [
  | some found ↦ none
  | none ↦ some (record w { pool = p; mail = (t, pc) ∷ w.mail })
]

unfoldable pub acquired : World → Option (Pool × Acquired) → Option World
acquired w none = none
acquired w (some (p, got pc)) = some (record w { pool = p; held = pc ∷ w.held })
acquired w (some (p, create_failed)) = some (record w { pool = p })
acquired w (some (p, pool_closed)) = some (record w { pool = p })
acquired w (some (p, must_wait)) = some (record w {
  pool = p;
  arriving = w.next_channel ∷ w.arriving;
  next_channel = w.next_channel + 1;
})

-- `QueueRequest`: a panic once the queue is closed, and a wait, here no step, while it is full.
unfoldable pub queue_request : World → ℕ → Option World
queue_request w t =
    if not (is_in t w.arriving)
    then some w
    else if w.pool.closed
    then none
    else if ltb (length w.pool.waiters) w.pool.config.max_size
    then some (record w {
      pool = record w.pool { waiters = w.pool.waiters ++ t ∷ [] };
      arriving = keep (other t) w.arriving;
      waiting = t ∷ w.waiting;
    })
    else some w

-- What the caller on channel `t` does with what it receives.
unfoldable pub received : World → ℕ → ℕ → Option (PooledConn × List (ℕ × PooledConn)) → World
unfolding handle_received
received w t now none =
    if is_in t w.shut then record w { waiting = keep (other t) w.waiting } else w
received w t now (some (pc, ms)) =
    let (p, pc') = handle_received w.pool pc now in
    record w { pool = p; held = pc' ∷ w.held; mail = ms; waiting = keep (other t) w.waiting }

unfoldable pub wait_for_connection : World → ℕ → ℕ → World
unfolding take_mail received
wait_for_connection w t now = if is_in t w.waiting then received w t now (take_mail t w.mail) else w

unfoldable pub released :
    World → (String → Bool) → ℕ → Option (PooledConn × List PooledConn) → Option World
unfolding release deliver
released w healthy now none = some w
released w healthy now (some (pc, held)) =
    deliver (record w { held = held }) (release w.pool pc healthy now) pc

unfoldable pub with_pool : World → Option Pool → Option World
with_pool w none = none
with_pool w (some p) = some (record w { pool = p })

-- `none` is a panic or a section that never ends.
unfoldable pub step : World → Event → Option World
unfolding acquired acquire_connection queue_request wait_for_connection released take_held with_pool
    maintain check_health close
step w (acquire healthy answer now) = acquired w (acquire_connection w.pool healthy answer now)
step w (enqueue t) = queue_request w t
step w (give_up t) =
    some (record w { arriving = keep (other t) w.arriving; waiting = keep (other t) w.waiting })
step w (receive t now) = some (wait_for_connection w t now)
step w (release_held id healthy now) = released w healthy now (take_held id w.held)
step w (maintain_size create now) = with_pool w (maintain w.pool create now)
step w (health_check healthy now) = some (record w { pool = check_health w.pool healthy now })
step w close_pool =
    let (p, channels) = close w.pool in some (record w { pool = p; shut = channels ++ w.shut })

unfoldable pub start : Pool → World
start p = record {
  pool = p;
  held = [];
  arriving = [];
  waiting = [];
  mail = [];
  shut = [];
  next_channel = 0;
}

-- The sections one after another.
unfoldable pub run : World → List Event → Option World
unfolding step
run w [] = some w
run w (e ∷ es) = elim (step w e) [ none ↦ none | some w' ↦ run w' es ]

unfoldable pub run_from : Option Pool → List Event → Option World
unfolding run start
run_from none es = none
run_from (some p) es = run (start p) es
