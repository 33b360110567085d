-- ===== src/RouterBreaker/Examples.antt =====
-- The router's breaker at concrete inputs.
use mcp_bridge.Prelude.{
  ℕ, ◌+◌, ◌≡◌, refl, inr, true, List, [], ◌∷◌, arith, length, map, ◌==◌, ◌||◌, ltb, if◌then◌else◌,
  All,
}
use mcp_bridge.RouterBreaker.{
  circuit_closed, circuit_open, circuit_half_open, Config, Breaker, new_breaker, default_config,
  succeeded, failed, rejected, executed, execute, force_open, set_state, recovery_due,
}
use mcp_bridge.RouterBreaker.Invariant.{
  Op, success, failure, forced_open, forced_close, apply_all, IsConsistent, HasCounted, requests_in,
  failures_in, apply_all-IsConsistent,
}
use mcp_bridge.RouterBreaker.Recovery.{
  Attempt, attempts, results, verdict, NoRecovery, StaysOpen, open_answers_by_clock, recovery_takes,
}

abbrev config : Config
config = record {
  failure_threshold = 2;
  recovery_timeout = 30;
  success_threshold = 1;
  timeout_duration = 10;
  monitoring_window = 60;
}

abbrev ops : List Op
ops =
    failure 1
    ∷ failure 2
    ∷ success 40
    ∷ success 41
    ∷ forced_open 50
    ∷ forced_close 51
    ∷ failure 52
    ∷ []

apply_all-IsConsistent_example :
    IsConsistent (apply_all (new_breaker config 0) ops)
    × HasCounted (apply_all (new_breaker config 0) ops) (requests_in ops) (failures_in ops)
apply_all-IsConsistent_example = apply_all-IsConsistent config 0 ops (omega arith)

abbrev forced : Breaker
forced = force_open (new_breaker config 0) 0

forced_opens : forced.state ≡ circuit_open
unfolding force_open set_state new_breaker
forced_opens = refl

abbrev attempt : ℕ → Attempt
attempt now = record { now = now; outcome = failed; done = now + 1 }

abbrev bad_luck : List Attempt
bad_luck = attempt 10 ∷ attempt 30 ∷ attempt 31 ∷ []

-- The first is rejected; the others are let through although the one before them failed.
bad_luck-results : results forced bad_luck ≡ rejected ∷ executed failed ∷ executed failed ∷ []
unfolding results force_open set_state new_breaker execute
bad_luck-results = refl

bad_luck-NoRecovery : All (NoRecovery forced) bad_luck
bad_luck-NoRecovery = (inr refl, (inr refl, (inr refl, tt)))

open_answers_by_clock_example :
    (results forced bad_luck ≡ map (verdict forced) bad_luck)
    × StaysOpen forced (attempts forced bad_luck)
open_answers_by_clock_example =
    open_answers_by_clock forced bad_luck forced_opens bad_luck-NoRecovery

abbrev good : ℕ → Attempt
good now = record { now = now; outcome = succeeded; done = now + 1 }

forced_fresh : forced.consecutive_successes ≡ 0
unfolding force_open set_state new_breaker
forced_fresh = refl

forced_due : recovery_due forced 30 ≡ true
unfolding force_open set_state new_breaker
forced_due = refl

recovery_takes_example : (attempts forced (good 30 ∷ good 40 ∷ [])).state ≡ (
    if length {A = Attempt} (good 40 ∷ []) == 0
      || ltb (1 + length {A = Attempt} (good 40 ∷ [])) forced.config.success_threshold
    then circuit_half_open
    else circuit_closed)
recovery_takes_example =
    recovery_takes forced (good 30) (good 40 ∷ []) forced_opens forced_fresh forced_due
      (omega arith) (refl, (refl, tt))

default_threshold : default_config.failure_threshold ≡ 5
unfolding default_config
default_threshold = refl
