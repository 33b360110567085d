-- ===== src/Circuit/Interleaving.antt =====
-- Any number of goroutines over one gateway breaker. `Call` takes the mutex twice, before and after
-- the call it guards, so other critical sections run in between.
use mcp_bridge.Prelude.{ℕ, ◌+◌, ◌-◌, ◌≤◌, ◌<◌, ◌≡◌, refl, Bool, true, false, some, arith}
use mcp_bridge.Circuit.{
  state_closed, state_open, state_half_open, CircuitBreaker, new_circuit_breaker, auto_recovery,
  record_outcome, is_open, reset, close,
}
use mcp_bridge.Circuit.Invariant.{
  IsValid, new-IsValid, record_outcome-IsValid, auto_recovery-IsValid, reset-IsValid, close-IsValid,
  idle-IsValid,
}

pub record System : Type 0 where
  pub breaker : CircuitBreaker
  pub clock : ℕ
  -- calls that were admitted and have not recorded their outcome
  pub in_flight : ℕ

-- A critical section that the program enters by itself, at the time `now`.
pub data Step (s : System) : System → Type 0 where
  admit :
      (now : ℕ)
      → s.clock ≤ now
      → is_open s.breaker ≡ false
      → Step s (record s { clock = now; in_flight = s.in_flight + 1 })
  reject : (now : ℕ) → s.clock ≤ now → is_open s.breaker ≡ true → Step s (record s { clock = now })
  finish :
      (now later : ℕ) (failed : Bool)
      → s.clock ≤ now
      → now ≤ later
      → 0 < s.in_flight
      → Step s (record {
        breaker = record_outcome s.breaker failed now later;
        clock = later;
        in_flight = s.in_flight - 1;
      })
  tick :
      (now later : ℕ)
      → s.clock ≤ now
      → now ≤ later
      → Step s (record s { breaker = auto_recovery s.breaker now later; clock = later })
  stop :
      (now : ℕ) (c : CircuitBreaker)
      → s.clock ≤ now
      → close s.breaker ≡ some c
      → Step s (record s { breaker = c; clock = now })

pub data Reach (s : System) : System → Type 0 where
  here : Reach s s
  step : {t u : System} → Reach s t → Step t u → Reach s u
  -- a manual `Reset`
  resets :
      {t : System} (now : ℕ)
      → Reach s t
      → t.clock ≤ now
      → Reach s (record t { breaker = reset t.breaker now; clock = now })

-- The invariant of a breaker that was made at the time `made`.
abbrev pub IsSafe : ℕ → System → Type 0
IsSafe made s = IsValid made s.clock s.breaker

Step-IsSafe : (made : ℕ) {s t : System} → Step s t → IsSafe made s → IsSafe made t
Step-IsSafe made {s} (admit now h _) v = idle-IsValid s.breaker made s.clock now v h
Step-IsSafe made {s} (reject now h _) v = idle-IsValid s.breaker made s.clock now v h
Step-IsSafe made {s} (finish now later f h l _) v =
    record_outcome-IsValid s.breaker made s.clock now later v h l f
Step-IsSafe made {s} (tick now later h l) v =
    auto_recovery-IsValid s.breaker made s.clock now later v h l
Step-IsSafe made {s} (stop now c h e) v = close-IsValid s.breaker made s.clock now v h c e

pub Reach-IsSafe : (made : ℕ) {s t : System} → IsSafe made s → Reach s t → IsSafe made t
Reach-IsSafe made v here = v
Reach-IsSafe made v (step r st) = Step-IsSafe made st (Reach-IsSafe made v r)
Reach-IsSafe made v (resets {t} now r h) =
    reset-IsValid t.breaker made t.clock now (Reach-IsSafe made v r) h

abbrev pub start : ℕ → ℕ → ℕ → ℕ → System
start m s t now = record { breaker = new_circuit_breaker m s t now; clock = now; in_flight = 0 }

-- However the critical sections of any number of calls, ticks, resets and a close interleave after
-- `NewCircuitBreaker`, with a clock that does not go back: a closed breaker has fewer failures than
-- `maxFailures` and a half-open one fewer successes than `successThreshold` (where these are
-- positive), a closed breaker has no successes counted, an open breaker has a failure recorded at
-- or after the time at which it was made, and its two times are not in the future.
pub Reach-start-IsSafe : (m s t now : ℕ) {u : System} → Reach (start m s t now) u → IsSafe now u
Reach-start-IsSafe m s t now r = Reach-IsSafe now (new-IsValid m s t now) r

-- The edges of the state diagram, with what each one needs.
pub data Edge (a b : CircuitBreaker) (now : ℕ) : Type 0 where
  stay : b.state ≡ a.state → Edge a b now
  trip :
      a.state ≡ state_closed → b.state ≡ state_open → a.max_failures ≤ a.failures + 1 → Edge a b now
  reopen : a.state ≡ state_half_open → b.state ≡ state_open → Edge a b now
  probe :
      a.state ≡ state_open
      → b.state ≡ state_half_open
      → a.timeout < now - a.last_failure_time
      → b.successes ≡ 0
      → Edge a b now
  restore :
      a.state ≡ state_half_open
      → b.state ≡ state_closed
      → a.success_threshold ≤ a.successes + 1
      → b.failures ≡ 0
      → Edge a b now

-- A step that is not a manual reset leaves the state alone or takes one of four edges: closed to
-- open when the failure recorded brings the count to `maxFailures`, half-open to open, open to
-- half-open once more than the timeout has passed since the last failure, with no success counted,
-- and half-open to closed when the success recorded brings the count to `successThreshold`.
pub Step-Edge : {s t : System} → Step s t → Edge s.breaker t.breaker t.clock
unfolding record_outcome auto_recovery close
Step-Edge (admit now h e) = stay refl
Step-Edge (reject now h e) = stay refl
Step-Edge {s} (finish now later f h l p) = grind (arith, stay, trip, reopen, probe, restore)
Step-Edge {s} (tick now later h l) = grind (arith, stay, trip, reopen, probe, restore)
Step-Edge {s} (stop now c h e) = stay (ground arith)
