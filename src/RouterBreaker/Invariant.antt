-- ===== src/RouterBreaker/Invariant.antt =====
-- What holds of the router's breaker after any interleaving of its critical sections.
use mcp_bridge.Prelude.{
  sym, subst, inl, inr, tests, ℕ, suc, ◌+◌, ◌≤◌, ◌<◌, ◌≡◌, refl, List, [], ◌∷◌, arith, leb,
  Bool-cases,
}
use mcp_bridge.RouterBreaker.{
  CircuitState, circuit_closed, circuit_open, circuit_half_open, Config, Breaker, new_breaker,
  record_success, record_failure, force_open, force_close, set_state, cleanup_old_failures,
}

-- A critical section that writes the breaker.
pub data Op : Type 0 where
  success failure forced_open forced_close : ℕ → Op

unfoldable pub apply : Breaker → Op → Breaker
apply cb (success now) = record_success cb now
apply cb (failure now) = record_failure cb now
apply cb (forced_open now) = force_open cb now
apply cb (forced_close now) = force_close cb now

unfoldable pub apply_all : Breaker → List Op → Breaker
apply_all cb [] = cb
apply_all cb (op ∷ ops) = apply_all (apply cb op) ops

-- Whether a section records the end of a request: a rejection is recorded as a failure.
unfoldable pub requests_in : List Op → ℕ
requests_in [] = 0
requests_in (success now ∷ ops) = suc (requests_in ops)
requests_in (failure now ∷ ops) = suc (requests_in ops)
requests_in (forced_open now ∷ ops) = requests_in ops
requests_in (forced_close now ∷ ops) = requests_in ops

unfoldable pub failures_in : List Op → ℕ
failures_in [] = 0
failures_in (failure now ∷ ops) = suc (failures_in ops)
failures_in (success now ∷ ops) = failures_in ops
failures_in (forced_open now ∷ ops) = failures_in ops
failures_in (forced_close now ∷ ops) = failures_in ops

-- What a state requires: a closed breaker is below its threshold, a half-open one has seen a
-- success and no failure since.
abbrev pub FitsState : CircuitState → Breaker → Type 0
FitsState circuit_closed cb = cb.consecutive_failures < cb.config.failure_threshold
FitsState circuit_open cb = Unit {0}
FitsState circuit_half_open cb = (cb.consecutive_failures ≡ 0) × (0 < cb.consecutive_successes)

pub record IsConsistent (cb : Breaker) : Type 0 where
  pub fits : FitsState cb.state cb
  pub totals : cb.total_requests ≡ cb.total_failures + cb.total_successes
  pub one_run : cb.consecutive_failures + cb.consecutive_successes ≤ cb.total_requests

success-fits :
    (s : CircuitState) (cb : Breaker) (now : ℕ)
    → 0 < cb.config.failure_threshold
    → FitsState
        (record_success (record cb { state = s }) now).state
        (record_success (record cb { state = s }) now)
unfolding record_success set_state
success-fits circuit_closed cb now pos = pos
success-fits circuit_open cb now pos =
    elim (Bool-cases (leb (cb.state_changed_at + cb.config.recovery_timeout) now)) [
      | inl due ↦ rw due (refl, omega arith)
      | inr early ↦ rw early tt
    ]
success-fits circuit_half_open cb now pos =
    elim (Bool-cases (leb cb.config.success_threshold (cb.consecutive_successes + 1))) [
      | inl enough ↦ rw enough pos
      | inr few ↦ rw few (refl, omega arith)
    ]

failure-fits :
    (s : CircuitState) (cb : Breaker) (now : ℕ)
    → FitsState
        (record_failure (record cb { state = s }) now).state
        (record_failure (record cb { state = s }) now)
unfolding record_failure set_state cleanup_old_failures
failure-fits circuit_closed cb now =
    elim (Bool-cases (leb cb.config.failure_threshold (cb.consecutive_failures + 1))) [
      | inl enough ↦ rw enough tt
      | inr few ↦ rw few (omega tests)
    ]
failure-fits circuit_open cb now = tt
failure-fits circuit_half_open cb now = tt

-- What the counters of a section do.
abbrev Counted : Breaker → Breaker → ℕ → ℕ → Type 0
Counted cb cb' failed succeeded =
    (cb'.total_failures ≡ cb.total_failures + failed)
    × (cb'.total_successes ≡ cb.total_successes + succeeded)
    × (cb'.total_requests ≡ cb.total_requests + failed + succeeded)
    × (cb'.config ≡ cb.config)

success-Counted :
    (s : CircuitState) (cb : Breaker) (now : ℕ)
    → let cb' = record_success (record cb { state = s }) now in
      Counted cb cb' 0 1
      × (cb'.consecutive_failures ≡ 0)
      × (cb'.consecutive_successes ≡ cb.consecutive_successes + 1)
unfolding record_success set_state
success-Counted circuit_closed cb now = ground arith
success-Counted circuit_open cb now = ground arith
success-Counted circuit_half_open cb now = ground arith

failure-Counted :
    (s : CircuitState) (cb : Breaker) (now : ℕ)
    → let cb' = record_failure (record cb { state = s }) now in
      Counted cb cb' 1 0
      × (cb'.consecutive_failures ≡ cb.consecutive_failures + 1)
      × (cb'.consecutive_successes ≡ 0)
unfolding record_failure set_state cleanup_old_failures
failure-Counted circuit_closed cb now = ground arith
failure-Counted circuit_open cb now = ground arith
failure-Counted circuit_half_open cb now = ground arith

apply-IsConsistent :
    (cb : Breaker) (op : Op)
    → 0 < cb.config.failure_threshold
    → IsConsistent cb
    → IsConsistent (apply cb op) × ((apply cb op).config ≡ cb.config)
unfolding apply
apply-IsConsistent cb (success now) pos v =
    let ((f, s, t, c), a, b) = success-Counted cb.state cb now in
    (
      record {
        fits = success-fits cb.state cb now pos;
        totals = omega (arith, f, s, t, v.totals);
        one_run = omega (arith, t, a, b, v.one_run);
      },
      c,
    )
apply-IsConsistent cb (failure now) pos v =
    let ((f, s, t, c), a, b) = failure-Counted cb.state cb now in
    (
      record {
        fits = failure-fits cb.state cb now;
        totals = omega (arith, f, s, t, v.totals);
        one_run = omega (arith, t, a, b, v.one_run);
      },
      c,
    )
apply-IsConsistent cb (forced_open now) pos v =
    unfold force_open set_state in
    (record { fits = tt; totals = v.totals; one_run = v.one_run }, refl)
apply-IsConsistent cb (forced_close now) pos v =
    unfold force_close set_state in
    (record { fits = pos; totals = v.totals; one_run = omega arith }, refl)

-- The counters of a breaker that has recorded these numbers of requests and of failures.
abbrev pub HasCounted : Breaker → ℕ → ℕ → Type 0
HasCounted cb requests failures =
    (cb.total_requests ≡ requests)
    × (cb.total_failures ≡ failures)
    × (cb.total_failures + cb.total_successes ≡ requests)

counted_all :
    (cb : Breaker) (ops : List Op)
    → cb.total_requests ≡ cb.total_failures + cb.total_successes
    → HasCounted
        (apply_all cb ops)
        (cb.total_requests + requests_in ops)
        (cb.total_failures + failures_in ops)
unfolding apply_all apply requests_in failures_in force_open force_close set_state
counted_all cb [] e = omega arith
counted_all cb (success now ∷ ops) e =
    let ((f, s, t, c), a, b) = success-Counted cb.state cb now in
    let later = counted_all (record_success cb now) ops (omega (arith, f, s, t)) in
    omega (arith, f, s, t, later)
counted_all cb (failure now ∷ ops) e =
    let ((f, s, t, c), a, b) = failure-Counted cb.state cb now in
    let later = counted_all (record_failure cb now) ops (omega (arith, f, s, t)) in
    omega (arith, f, s, t, later)
counted_all cb (forced_open now ∷ ops) e =
    counted_all (force_open cb now) ops (unfold force_open set_state in e)
counted_all cb (forced_close now ∷ ops) e =
    counted_all (force_close cb now) ops (unfold force_close set_state in e)

from_IsConsistent :
    (cb : Breaker) (ops : List Op)
    → 0 < cb.config.failure_threshold
    → IsConsistent cb
    → IsConsistent (apply_all cb ops)
unfolding apply_all
from_IsConsistent cb [] pos v = v
from_IsConsistent cb (op ∷ ops) pos v =
    let (v', c) = apply-IsConsistent cb op pos v in
    from_IsConsistent (apply cb op) ops (subst (λ k. 0 < k.failure_threshold) (sym c) pos) v'

-- With a positive failure threshold, after any interleaving of successes, failures, rejections and
-- forced transitions: a closed breaker has fewer failures in a row than the threshold, a half-open
-- one has had a success and no failure since, `totalRequests` is the number of the successes,
-- failures and rejections recorded, `totalFailures` that of the failures and rejections and
-- `totalSuccesses` that of the successes, and the runs of failures and of successes are no longer
-- than the requests.
pub apply_all-IsConsistent :
    (config : Config) (now : ℕ) (ops : List Op)
    → 0 < config.failure_threshold
    → let cb = apply_all (new_breaker config now) ops in
      IsConsistent cb × HasCounted cb (requests_in ops) (failures_in ops)
unfolding new_breaker
apply_all-IsConsistent config now ops pos = (
  from_IsConsistent (new_breaker config now) ops pos
      (record { fits = pos; totals = refl; one_run = omega arith }),
  omega (arith, counted_all (new_breaker config now) ops refl),
)
