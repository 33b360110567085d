-- ===== src/Circuit/Invariant.antt =====
-- What holds of a gateway breaker between two critical sections.
use mcp_bridge.Prelude.{ℕ, ◌≤◌, ◌<◌, ◌≡◌, Bool, some, arith}
use mcp_bridge.Circuit.{
  state_closed, state_open, state_half_open, CircuitBreaker, new_circuit_breaker, auto_recovery,
  record_outcome, reset, close,
}

-- The counters stay under the thresholds that would have moved the state, a closed breaker has no
-- successes counted, an open breaker has had a failure since it was made, and its times are past.
pub record IsValid (made clock : ℕ) (cb : CircuitBreaker) : Type 0 where
  pub closed_below : cb.state ≡ state_closed → 0 < cb.max_failures → cb.failures < cb.max_failures
  pub closed_fresh : cb.state ≡ state_closed → cb.successes ≡ 0
  pub half_open_below :
      cb.state ≡ state_half_open → 0 < cb.success_threshold → cb.successes < cb.success_threshold
  pub opened_by_failure : cb.state ≡ state_open → made ≤ cb.last_failure_time
  pub made_past : made ≤ clock
  pub failure_past : cb.last_failure_time ≤ clock
  pub change_past : cb.last_state_change ≤ clock

pub new-IsValid : (m s t now : ℕ) → IsValid now now (new_circuit_breaker m s t now)
unfolding new_circuit_breaker
new-IsValid m s t now = ground arith

module _ (cb : CircuitBreaker) (made clock now later : ℕ) (v : IsValid made clock cb)
    (past : clock ≤ now) (on : now ≤ later) where
  pub record_outcome-IsValid :
      (failed : Bool) → IsValid made later (record_outcome cb failed now later)
  unfolding record_outcome
  record_outcome-IsValid failed = ground arith

  pub auto_recovery-IsValid : IsValid made later (auto_recovery cb now later)
  unfolding auto_recovery
  auto_recovery-IsValid = ground arith

module _ (cb : CircuitBreaker) (made clock now : ℕ) (v : IsValid made clock cb)
    (past : clock ≤ now) where
  pub reset-IsValid : IsValid made now (reset cb now)
  unfolding reset
  reset-IsValid = ground arith

  pub close-IsValid : (c : CircuitBreaker) → close cb ≡ some c → IsValid made now c
  unfolding close
  close-IsValid c e = ground arith

  pub idle-IsValid : IsValid made now cb
  idle-IsValid = ground arith
