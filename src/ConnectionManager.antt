-- ===== src/ConnectionManager.antt =====
-- The router's connection to the gateway: services/router/internal/router/connection_manager.go.
-- What `Connect` and `SendPing` come to is a parameter. Durations are in nanoseconds; the factor
-- 2.0 of the backoff is exact in floating point.
pub mod Backoff
mod Examples
use mcp_bridge.Prelude.{
  ℕ, ◌+◌, ◌*◌, ◌%◌, ◌^◌, ◌==◌, ◌&&◌, Bool, true, false, not, Option, none, some, List, [], ◌∷◌,
  ◌++◌, if◌then◌else◌, ltb, leb, length, min,
}

pub data ConnectionState : Type 0 where
  init connecting connected reconnecting failed shutdown : ConnectionState

abbrev pub same_state : ConnectionState → ConnectionState → Bool
same_state init init = true
same_state connecting connecting = true
same_state connected connected = true
same_state reconnecting reconnecting = true
same_state failed failed = true
same_state shutdown shutdown = true
same_state s t = false

-- `state_changes` is what the channel holds.
pub record ConnectionManager : Type 0 where
  pub state : ConnectionState
  pub state_changes : List ConnectionState
  pub channel_closed : Bool
  pub retries : ℕ

unfoldable pub new_connection_manager : ConnectionManager
new_connection_manager = record {
  state = init;
  state_changes = [];
  channel_closed = false;
  retries = 0;
}

abbrev pub state_change_buffer : ℕ
state_change_buffer = 10

unfoldable pub set_state : ConnectionState → ConnectionManager → ConnectionManager
set_state s cm =
    if not (same_state cm.state s)
      && not cm.channel_closed
      && ltb (length cm.state_changes) state_change_buffer
    then record cm { state = s; state_changes = cm.state_changes ++ s ∷ [] }
    else record cm { state = s }

unfoldable pub stop : ConnectionManager → ConnectionManager
stop cm = if cm.channel_closed then cm else record cm { state = shutdown; channel_closed = true }

-- With what `SendPing` answers.
unfoldable pub should_stop_keepalive : Bool → ConnectionManager → ConnectionManager × Bool
unfolding set_state
should_stop_keepalive ping_ok cm =
    if not (same_state cm.state connected)
    then (cm, true)
    else if ping_ok
    then (cm, false)
    else (set_state reconnecting cm, true)

abbrev pub second : ℕ
second = 1000000000

abbrev pub max_attempts : ℕ
max_attempts = 10

-- The variables of the loop of `maintainConnection`, the waits between attempts so far, the last
-- first, and whether it has given up.
pub record Maintenance : Type 0 where
  pub manager : ConnectionManager
  pub backoff : ℕ
  pub attempts : ℕ
  pub waits : List ℕ
  pub gave_up : Bool

unfoldable pub maintain_connection : ConnectionManager → Maintenance
maintain_connection cm = record {
  manager = cm;
  backoff = second;
  attempts = 0;
  waits = [];
  gave_up = false;
}

abbrev pub next_backoff : ℕ → ℕ
next_backoff backoff = if ltb (60 * second) (backoff * 2) then 60 * second else backoff * 2

-- One attempt, with what `Connect` answers. After a connection the next attempt is made when it is
-- lost.
unfoldable pub attempt : Bool → Maintenance → Maintenance
unfolding set_state
attempt true m = record m {
  manager = set_state connected (set_state connecting m.manager);
  backoff = second;
  attempts = 0;
}
attempt false m =
    let cm = set_state failed (set_state connecting m.manager) in
    let cm' = record cm { retries = (cm.retries + 1) % 2 ^ 64 } in
    if leb max_attempts m.attempts then record m { manager = cm'; gave_up = true } else record m {
      manager = cm';
      backoff = next_backoff m.backoff;
      attempts = m.attempts + 1;
      waits = m.backoff ∷ m.waits;
    }

-- The attempts one after another; none is made after giving up.
unfoldable pub attempt_all : List Bool → Maintenance → Maintenance
unfolding attempt
attempt_all [] m = m
attempt_all (o ∷ os) m = if m.gave_up then m else attempt_all os (attempt o m)
