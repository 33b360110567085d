-- ===== src/Pool.antt =====
-- The router's connection pool: services/router/internal/pool/pool.go and connection_acquirer.go.
-- Times are in nanoseconds. What `Factory.Create` answers and whether a connection is alive and
-- passes `Factory.Validate` come in with each operation. WaitDuration, which `Stats` does not
-- report, and the errors of `Connection.Close` are left out.
pub mod Acquirer
pub mod Clients
pub mod Ledger
pub mod Sections
pub mod Exchange
pub mod Returning
pub mod Callers
pub mod Waiting
pub mod Soundness
pub mod Overlapping
mod Examples
use mcp_bridge.Prelude.{
  ℕ, zero, suc, ◌+◌, ◌-◌, ◌*◌, Bool, true, false, not, ◌&&◌, Option, none, some, List, [], ◌∷◌,
  ◌++◌, ltb, leb, if◌then◌else◌, length, keep, String, str_eq,
}
use mcp_bridge.Prelude.Int.{ℤ, pos, negsuc, ◌+ℤ◌, ◌-ℤ◌}

-- The configuration as it is given and after `validateAndNormalizePoolConfig`.
pub record RawConfig : Type 0 where
  pub min_size : ℤ
  pub max_size : ℤ
  pub max_idle_time : ℤ
  pub max_lifetime : ℤ
  pub acquire_timeout : ℤ
  pub health_check_interval : ℤ

pub record Config : Type 0 where
  pub min_size : ℕ
  pub max_size : ℕ
  pub max_idle_time : ℕ
  pub max_lifetime : ℕ
  pub acquire_timeout : ℕ
  pub health_check_interval : ℕ

abbrev second : ℕ
second = 1000000000

-- A value that is not positive is replaced.
unfoldable pub positive_or : ℕ → ℤ → ℕ
positive_or fallback (pos zero) = fallback
positive_or fallback (pos (suc n)) = suc n
positive_or fallback (negsuc n) = fallback

abbrev at_least_0 : ℤ → ℕ
at_least_0 (pos n) = n
at_least_0 (negsuc n) = 0

unfoldable pub validate_and_normalize : RawConfig → Config
unfolding positive_or
validate_and_normalize c =
    let max_size = positive_or 10 c.max_size in
    record {
      min_size = if ltb max_size (at_least_0 c.min_size) then max_size else at_least_0 c.min_size;
      max_size = max_size;
      max_idle_time = positive_or (300 * second) c.max_idle_time;
      max_lifetime = positive_or (1800 * second) c.max_lifetime;
      acquire_timeout = positive_or (10 * second) c.acquire_timeout;
      health_check_interval = positive_or (30 * second) c.health_check_interval;
    }

pub record PooledConn : Type 0 where
  pub id : String
  pub created_at : ℕ
  pub last_used_at : ℕ
  pub usage_count : ℕ

-- `connections` holds the keys of the map, none for nil: the connections themselves are with those
-- that hold them. `waiters` holds the numbers of the channels. `close_calls` lists the calls of
-- `Connection.Close` by the identifier.
pub record Pool : Type 0 where
  pub config : Config
  pub connections : Option (List String)
  pub idle : List PooledConn
  pub waiters : List ℕ
  pub total_connections : ℤ
  pub active_connections : ℤ
  pub idle_connections : ℤ
  pub wait_count : ℕ
  pub created_count : ℕ
  pub closed_count : ℕ
  pub failed_count : ℕ
  pub closed : Bool
  pub close_calls : List String

unfoldable pub create_pool_struct : Config → Pool
create_pool_struct config = record {
  config = config;
  connections = some [];
  idle = [];
  waiters = [];
  total_connections = pos 0;
  active_connections = pos 0;
  idle_connections = pos 0;
  wait_count = 0;
  created_count = 0;
  closed_count = 0;
  failed_count = 0;
  closed = false;
  close_calls = [];
}

-- The keys of a Go map: `m[k] = v` and `delete(m, k)`.
abbrev pub other_key : String → String → Bool
other_key k j = not (str_eq j k)

unfoldable pub remove_key : String → List String → List String
remove_key k keys = keep (other_key k) keys

unfoldable pub insert_key : String → List String → List String
unfolding remove_key
insert_key k keys = k ∷ remove_key k keys

abbrev pub keys_of : Option (List String) → List String
keys_of none = []
keys_of (some keys) = keys

abbrev pub map_size : Option (List String) → ℕ
map_size m = length (keys_of m)

unfoldable pub delete_key : String → Option (List String) → Option (List String)
delete_key k none = none
delete_key k (some keys) = some (remove_key k keys)

unfoldable pub is_valid_connection : Pool → (String → Bool) → PooledConn → ℕ → Bool
is_valid_connection p healthy pc now =
    healthy pc.id
    && not (ltb p.config.max_lifetime (now - pc.created_at))
    && not (ltb p.config.max_idle_time (now - pc.last_used_at))

-- With what `Create` answers, none for an error; none for the panic of a write to a nil map.
unfoldable pub create_connection : Pool → Option String → ℕ → Option (Pool × Option PooledConn)
unfolding insert_key
create_connection p none now = some (record p { failed_count = p.failed_count + 1 }, none)
create_connection p (some id) now = elim p.connections [
  | none ↦ none
  | some keys ↦ some (
    record p {
      connections = some (insert_key id keys);
      created_count = p.created_count + 1;
      total_connections = p.total_connections +ℤ pos 1;
    },
    some (record { id = id; created_at = now; last_used_at = now; usage_count = 0 }),
  )
]

unfoldable pub remove_connection : Pool → PooledConn → Pool
unfolding delete_key
remove_connection p pc = record p {
  connections = delete_key pc.id p.connections;
  total_connections = p.total_connections -ℤ pos 1;
  closed_count = p.closed_count + 1;
  close_calls = p.close_calls ++ pc.id ∷ [];
}

-- `select { case p.idle <- pc: ... default: p.removeConnection(pc) }`
unfoldable pub put_idle : Pool → PooledConn → Pool
unfolding remove_connection
put_idle p pc =
    if ltb (length p.idle) p.config.max_size
    then record p { idle = p.idle ++ pc ∷ []; idle_connections = p.idle_connections +ℤ pos 1 }
    else remove_connection p pc

unfoldable pub put_created : Pool → Option PooledConn → Pool
unfolding put_idle
put_created p none = p
put_created p (some pc) = put_idle p pc

-- The loops of `initializeMinimumConnections` and `maintain` over the connections still needed.
-- The first sends without a default: its channel has room, since `MinSize` is at most `MaxSize`.
unfoldable pub fill : Pool → ℕ → (ℕ → Option String) → ℕ → Option Pool
unfolding create_connection put_created
fill p zero create now = some p
fill p (suc n) create now = elim (create_connection p (create n) now) [
  | none ↦ none
  | some (p', made) ↦ fill (put_created p' made) n create now
]

-- `NewPool`, before its background workers do anything.
unfoldable pub new_pool : RawConfig → (ℕ → Option String) → ℕ → Option Pool
unfolding validate_and_normalize create_pool_struct fill
new_pool raw create now =
    let config = validate_and_normalize raw in
    fill (create_pool_struct config) config.min_size create now

unfoldable pub maintain : Pool → (ℕ → Option String) → ℕ → Option Pool
unfolding fill
maintain p create now =
    if leb p.config.min_size (map_size p.connections)
    then some p
    else fill p (p.config.min_size - map_size p.connections) create now
