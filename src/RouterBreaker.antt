-- ===== src/RouterBreaker.antt =====
-- The router's circuit breaker around its gateway client:
-- services/router/internal/gateway/circuit_breaker.go.
-- Each function is one critical section of the Go mutex and reads the clock once, as `now`. Times
-- are nanoseconds since an epoch before the process; thresholds, the timeout and the window are not
-- negative. The client and the deadline of a request come in as the outcome of the operation.
pub mod Invariant
pub mod Recovery
mod Examples
use mcp_bridge.Prelude.{
  ℕ, ◌+◌, ◌*◌, ◌^◌, Bool, true, false, List, [], ◌∷◌, ◌++◌, leb, if◌then◌else◌, length, keep,
}
use mcp_bridge.RateLimit.Window.{within}

pub data CircuitState : Type 0 where
  circuit_closed circuit_open circuit_half_open : CircuitState

pub record Config : Type 0 where
  pub failure_threshold : ℕ
  pub recovery_timeout : ℕ
  pub success_threshold : ℕ
  pub timeout_duration : ℕ
  pub monitoring_window : ℕ

abbrev second : ℕ
second = 10 ^ 9

unfoldable pub default_config : Config
default_config = record {
  failure_threshold = 5;
  recovery_timeout = 30 * second;
  success_threshold = 3;
  timeout_duration = 10 * second;
  monitoring_window = 60 * second;
}

-- `recent_failures` holds the timestamps of the records; nothing reads their errors.
pub record Breaker : Type 0 where
  pub config : Config
  pub state : CircuitState
  pub state_changed_at : ℕ
  pub recent_failures : List ℕ
  pub consecutive_failures : ℕ
  pub consecutive_successes : ℕ
  pub total_requests : ℕ
  pub total_failures : ℕ
  pub total_successes : ℕ
  pub last_failure_time : ℕ
  pub last_success_time : ℕ

unfoldable pub new_breaker : Config → ℕ → Breaker
new_breaker config now = record {
  config = config;
  state = circuit_closed;
  state_changed_at = now;
  recent_failures = [];
  consecutive_failures = 0;
  consecutive_successes = 0;
  total_requests = 0;
  total_failures = 0;
  total_successes = 0;
  last_failure_time = 0;
  last_success_time = 0;
}

unfoldable pub set_state : Breaker → CircuitState → ℕ → Breaker
set_state cb s now = record cb { state = s; state_changed_at = now }

-- `time.Since(stateChangedAt) >= RecoveryTimeout`
abbrev pub recovery_due : Breaker → ℕ → Bool
recovery_due cb now = leb (cb.state_changed_at + cb.config.recovery_timeout) now

-- The `switch` of `allowRequest`.
admits : CircuitState → Breaker → ℕ → Bool
admits circuit_closed cb now = true
admits circuit_open cb now = recovery_due cb now
admits circuit_half_open cb now = true

unfoldable pub allow_request : Breaker → ℕ → Bool
unfolding admits
allow_request cb now = admits cb.state cb now

unfoldable pub cleanup_old_failures : Breaker → ℕ → Breaker
cleanup_old_failures cb now = record cb {
  recent_failures = keep (within cb.config.monitoring_window now) cb.recent_failures;
}

-- The `switch` of `recordSuccess`, after the counters are written.
on_success : CircuitState → Breaker → ℕ → Breaker
unfolding set_state
on_success circuit_half_open cb now =
    if leb cb.config.success_threshold cb.consecutive_successes
    then set_state cb circuit_closed now
    else cb
on_success circuit_open cb now =
    if recovery_due cb now then set_state cb circuit_half_open now else cb
on_success circuit_closed cb now = cb

unfoldable pub record_success : Breaker → ℕ → Breaker
unfolding on_success
record_success cb now =
    on_success cb.state
      (record cb {
        total_requests = cb.total_requests + 1;
        total_successes = cb.total_successes + 1;
        consecutive_failures = 0;
        consecutive_successes = cb.consecutive_successes + 1;
        last_success_time = now;
      })
      now

-- The `switch` of `recordFailure`, after the counters are written.
on_failure : CircuitState → Breaker → ℕ → Breaker
unfolding set_state
on_failure circuit_closed cb now =
    if leb cb.config.failure_threshold cb.consecutive_failures
    then set_state cb circuit_open now
    else cb
on_failure circuit_half_open cb now = set_state cb circuit_open now
on_failure circuit_open cb now = cb

unfoldable pub record_failure : Breaker → ℕ → Breaker
unfolding cleanup_old_failures on_failure
record_failure cb now =
    on_failure cb.state
      (cleanup_old_failures
        (record cb {
          total_requests = cb.total_requests + 1;
          total_failures = cb.total_failures + 1;
          consecutive_successes = 0;
          consecutive_failures = cb.consecutive_failures + 1;
          last_failure_time = now;
          recent_failures = cb.recent_failures ++ now ∷ [];
        })
        now)
      now

-- How an operation that was let through ends: the `select` of `executeWithCircuitBreaker`.
pub data Outcome : Type 0 where
  succeeded failed timed_out : Outcome

pub data ExecuteResult : Type 0 where
  rejected : ExecuteResult
  executed : Outcome → ExecuteResult

record_outcome : Breaker → Outcome → ℕ → Breaker
unfolding record_success record_failure
record_outcome cb succeeded now = record_success cb now
record_outcome cb failed now = record_failure cb now
record_outcome cb timed_out now = record_failure cb now

-- `executeWithCircuitBreaker` with no other goroutine between its two critical sections, the first
-- at `now` and the second at `done`.
unfoldable pub execute : Breaker → ℕ → Outcome → ℕ → Breaker × ExecuteResult
unfolding allow_request record_outcome
execute cb now outcome done =
    if allow_request cb now
    then (record_outcome cb outcome done, executed outcome)
    else (record_failure cb done, rejected)

-- `IsConnected`, with the client's own answer.
unfoldable pub is_connected : Breaker → Bool → Bool
is_connected cb client = elim cb.state [ circuit_open ↦ false | _ ↦ client ]

unfoldable pub force_open : Breaker → ℕ → Breaker
force_open cb now = set_state cb circuit_open now

unfoldable pub force_close : Breaker → ℕ → Breaker
force_close cb now = record (set_state cb circuit_closed now) {
  consecutive_failures = 0;
  consecutive_successes = 0;
}
