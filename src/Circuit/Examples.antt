-- ===== src/Circuit/Examples.antt =====
-- The gateway breaker at concrete inputs.
use mcp_bridge.Prelude.{◌≡◌, refl, inr, true, false, List, [], ◌∷◌, arith}
use mcp_bridge.Circuit.{
  state_closed, state_open, state_half_open, CircuitBreaker, new_circuit_breaker, auto_recovery,
  record_outcome, Event, calling, ticking, is_open, run_events, reset,
}
use mcp_bridge.Circuit.Interleaving.{
  System, Reach, IsSafe, Edge, start, admit, finish, tick, here, step, Reach-start-IsSafe,
  Step-Edge,
}
use mcp_bridge.Circuit.Traces.{open_iff_failure_run, failures_in_a_row, calls_in, recovers}

-- Two failures trip it, the second after a tick; a third call is rejected and a tick comes too
-- early.
abbrev failing : List Event
failing =
    ticking 45 45
    ∷ calling false 25 25
    ∷ calling true 20 21
    ∷ ticking 15 15
    ∷ calling true 10 10
    ∷ calling false 5 5
    ∷ []

abbrev tripped : CircuitBreaker
tripped = run_events (new_circuit_breaker 2 2 30 0) failing

tripped_open : tripped.state ≡ state_open
unfolding run_events new_circuit_breaker
tripped_open = refl

reset_closes : (reset tripped 30).state ≡ state_closed
unfolding reset
reset_closes = refl

abbrev two_admitted : System
two_admitted = record (start 1 2 30 0) { clock = 2; in_flight = 2 }

two_admitted_reached : Reach (start 1 2 30 0) two_admitted
unfolding new_circuit_breaker is_open
two_admitted_reached = step (step here (admit 1 (omega arith) refl)) (admit 2 (omega arith) refl)

-- Both calls fail, and the second records its failure on a breaker that is open.
abbrev both_failed : System
both_failed = record {
  breaker = record_outcome (record_outcome (new_circuit_breaker 1 2 30 0) true 3 3) true 4 5;
  clock = 5;
  in_flight = 0;
}

both_failed_reached : Reach (start 1 2 30 0) both_failed
both_failed_reached =
    step (step two_admitted_reached (finish 3 3 true (omega arith) (omega arith) (omega arith)))
      (finish 4 5 true (omega arith) (omega arith) (omega arith))

Reach-start-IsSafe_example : IsSafe 0 both_failed
Reach-start-IsSafe_example = Reach-start-IsSafe 1 2 30 0 both_failed_reached

abbrev ticked : System
ticked = record both_failed { breaker = auto_recovery both_failed.breaker 35 36; clock = 36 }

ticked_half_open : ticked.breaker.state ≡ state_half_open
unfolding auto_recovery record_outcome new_circuit_breaker
ticked_half_open = refl

Step-Edge_example : Edge both_failed.breaker ticked.breaker 36
Step-Edge_example = Step-Edge {s = both_failed} (tick 35 36 (omega arith) (omega arith))

open_iff_failure_run_example : is_open tripped ≡ true
unfolding run_events new_circuit_breaker failures_in_a_row
open_iff_failure_run_example = (open_iff_failure_run 2 2 30 0 failing).1 (
  ticking 45 45 ∷ calling false 25 25 ∷ [],
  ticking 15 15 ∷ calling true 10 10 ∷ calling false 5 5 ∷ [],
  20,
  21,
  refl,
  (omega arith, (tt, tt)),
  inr (refl, omega arith),
)

abbrev good : List Event
good = calling false 62 62 ∷ ticking 61 61 ∷ calling false 61 61 ∷ []

recovers_example :
    (is_open (auto_recovery tripped 60 60) ≡ false)
    × ((run_events (auto_recovery tripped 60 60) good).state ≡ state_closed)
unfolding run_events new_circuit_breaker calls_in
recovers_example =
    recovers tripped 60 60 good refl refl (omega arith) (omega arith) (refl, (tt, (refl, tt)))
