-- ===== src/Circuit.antt =====
-- The gateway's circuit breaker: services/gateway/pkg/circuit/breaker.go. Each function is one
-- critical section of the Go mutex, at a reading `now` of the clock; `later` is the reading that
-- `setState` makes where the section has made one before it. Times are nanoseconds since an epoch
-- before the process; thresholds and the timeout are not negative. A threshold of 0 or below
-- behaves as 0 does here.
pub mod Invariant
pub mod Interleaving
pub mod Traces
mod Examples
use mcp_bridge.Prelude.{
  ℕ, ◌+◌, ◌-◌, Bool, true, false, ◌&&◌, Option, none, some, List, [], ◌∷◌, ltb, leb, if◌then◌else◌,
}

pub data State : Type 0 where
  state_closed state_open state_half_open : State

pub record CircuitBreaker : Type 0 where
  pub max_failures : ℕ
  pub success_threshold : ℕ
  pub timeout : ℕ
  pub state : State
  pub failures : ℕ
  pub successes : ℕ
  pub last_failure_time : ℕ
  pub last_state_change : ℕ
  -- whether `stopCh` is closed; its goroutine has then returned, since `Close` waits for `doneCh`
  pub stopped : Bool

unfoldable pub new_circuit_breaker : ℕ → ℕ → ℕ → ℕ → CircuitBreaker
new_circuit_breaker max_failures success_threshold timeout now = record {
  max_failures = max_failures;
  success_threshold = success_threshold;
  timeout = timeout;
  state = state_closed;
  failures = 0;
  successes = 0;
  last_failure_time = 0;
  last_state_change = now;
  stopped = false;
}

unfoldable pub set_state : CircuitBreaker → State → ℕ → CircuitBreaker
set_state cb s now = record cb { state = s; last_state_change = now }

abbrev pub is_state_open : State → Bool
is_state_open state_open = true
is_state_open _ = false

unfoldable pub check_and_transition_to_half_open : CircuitBreaker → ℕ → ℕ → CircuitBreaker
unfolding set_state
check_and_transition_to_half_open cb now later =
    if is_state_open cb.state && ltb cb.timeout (now - cb.last_failure_time)
    then record (set_state cb state_half_open later) { successes = 0 }
    else cb

-- One turn of the loop of `autoRecovery`; nothing happens once the goroutine has returned.
unfoldable pub auto_recovery : CircuitBreaker → ℕ → ℕ → CircuitBreaker
unfolding check_and_transition_to_half_open
auto_recovery cb now later =
    if cb.stopped then cb else check_and_transition_to_half_open cb now later

-- The `switch` of `recordFailure`, after the counter and the time are written.
on_failure : State → CircuitBreaker → ℕ → CircuitBreaker
unfolding set_state
on_failure state_closed cb now =
    if leb cb.max_failures cb.failures
    then record (set_state cb state_open now) { failures = 0 }
    else cb
on_failure state_half_open cb now = record (set_state cb state_open now) { failures = 0 }
on_failure state_open cb now = cb

unfoldable pub record_failure : CircuitBreaker → ℕ → ℕ → CircuitBreaker
unfolding on_failure
record_failure cb now later =
    on_failure cb.state (record cb { failures = cb.failures + 1; last_failure_time = now }) later

-- The `switch` of `recordSuccess`, after the failures are reset.
on_success : State → CircuitBreaker → ℕ → CircuitBreaker
unfolding set_state
on_success state_half_open cb now =
    if leb cb.success_threshold (cb.successes + 1)
    then record (set_state cb state_closed now) { successes = 0 }
    else record cb { successes = cb.successes + 1 }
on_success state_closed cb now = cb
on_success state_open cb now = cb

unfoldable pub record_success : CircuitBreaker → ℕ → CircuitBreaker
unfolding on_success
record_success cb now = on_success cb.state (record cb { failures = 0 }) now

unfoldable pub is_open : CircuitBreaker → Bool
is_open cb = is_state_open cb.state

-- The second critical section of `Call`: the outcome of `fn`, `true` for an error, is recorded.
unfoldable pub record_outcome : CircuitBreaker → Bool → ℕ → ℕ → CircuitBreaker
unfolding record_failure record_success
record_outcome cb failed now later =
    if failed then record_failure cb now later else record_success cb now

pub data CallResult : Type 0 where
  rejected : CallResult
  returned : Bool → CallResult

-- `Call` with no other goroutine between its two critical sections.
unfoldable pub call : CircuitBreaker → Bool → ℕ → ℕ → CircuitBreaker × CallResult
unfolding is_open record_outcome
call cb failed now later =
    if is_open cb then (cb, rejected) else (record_outcome cb failed now later, returned failed)

unfoldable pub reset : CircuitBreaker → ℕ → CircuitBreaker
reset cb now = record cb {
  state = state_closed;
  failures = 0;
  successes = 0;
  last_state_change = now;
}

-- `Close`; `none` is the panic of closing a closed channel.
unfoldable pub close : CircuitBreaker → Option CircuitBreaker
close cb = if cb.stopped then none else some (record cb { stopped = true })

-- What happens to a breaker whose one client calls in turn: a call with its outcome, and a turn of
-- the goroutine that `NewCircuitBreaker` has started, each with its readings of the clock.
pub data Event : Type 0 where
  calling : Bool → ℕ → ℕ → Event
  ticking : ℕ → ℕ → Event

unfoldable pub happen : CircuitBreaker → Event → CircuitBreaker
unfolding call auto_recovery
happen cb (calling failed now later) = (call cb failed now later).0
happen cb (ticking now later) = auto_recovery cb now later

-- A history, the newest event first.
unfoldable pub run_events : CircuitBreaker → List Event → CircuitBreaker
unfolding happen
run_events cb [] = cb
run_events cb (e ∷ before) = happen (run_events cb before) e
