-- ===== src/Circuit/Traces.antt =====
-- A gateway breaker under one client that calls in turn, with the goroutine of `autoRecovery`
-- between the calls.
use mcp_bridge.Prelude.{
  ℕ, suc, ◌+◌, ◌-◌, ◌≤◌, ◌<◌, ◌≡◌, refl, ◌↔◌, ◌⊎◌, ap, subst, ◌∙◌, inl, inr, true, false, List, [],
  ◌∷◌, ◌++◌, arith, All, if◌then◌else◌, ltb, Bool-cases,
}
use mcp_bridge.Circuit.{
  State, state_closed, state_open, state_half_open, CircuitBreaker, new_circuit_breaker,
  auto_recovery, Event, calling, ticking, run_events, is_open,
}

-- The number of calls that failed in a row up to now.
unfoldable pub failures_in_a_row : List Event → ℕ
failures_in_a_row [] = 0
failures_in_a_row (ticking _ _ ∷ before) = failures_in_a_row before
failures_in_a_row (calling true _ _ ∷ before) = suc (failures_in_a_row before)
failures_in_a_row (calling false _ _ ∷ before) = 0

-- A tick that comes at most `timeout` after the failure; a call is no tick.
abbrev pub Early : ℕ → ℕ → Event → Type 0
Early timeout failed_at (ticking now later) = now - failed_at ≤ timeout
Early timeout failed_at (calling failed now later) = Unit

is_state : (st : State) → (st ≡ state_closed) ⊎ ((st ≡ state_open) ⊎ (st ≡ state_half_open))
is_state state_closed = inl refl
is_state state_open = inr (inl refl)
is_state state_half_open = inr (inr refl)

module _ (m s t start : ℕ) where
  abbrev pub after : List Event → CircuitBreaker
  after es = run_events (new_circuit_breaker m s t start) es

  -- A failure after this history opens the breaker.
  abbrev pub IsTripping : List Event → Type 0
  IsTripping es =
      ((after es).state ≡ state_half_open)
      ⊎ (((after es).state ≡ state_closed) × (m ≤ failures_in_a_row es + 1))

  -- A call failed that opened the breaker, and every tick since came too early.
  abbrev pub IsTripped : List Event → Type 0
  IsTripped es =
      (since before : List Event) × (now later : ℕ) × (es
        ≡ since ++ (calling true now later ∷ before))
      × All (Early t now) since
      × IsTripping before

  record Follows (es : List Event) : Type 0 where
    same_max : (after es).max_failures ≡ m
    same_timeout : (after es).timeout ≡ t
    running : (after es).stopped ≡ false
    counted : (after es).state ≡ state_closed → (after es).failures ≡ failures_in_a_row es

  after-Follows : (es : List Event) → Follows es
  unfolding run_events new_circuit_breaker failures_in_a_row
  after-Follows [] = ground arith
  after-Follows (calling true now later ∷ es) = ground (arith, after-Follows es)
  after-Follows (calling false now later ∷ es) = ground (arith, after-Follows es)
  after-Follows (ticking now later ∷ es) = ground (arith, after-Follows es)

  abbrev OpenedAt : List Event → ℕ → Type 0
  OpenedAt es now = ((after es).state ≡ state_open) × ((after es).last_failure_time ≡ now)

  trips :
      (es : List Event) (now later : ℕ) → IsTripping es → OpenedAt (calling true now later ∷ es) now
  unfolding run_events
  trips es now later h = ground (arith, after-Follows es)

  stays_open :
      (e : Event) (es : List Event) (now : ℕ)
      → OpenedAt es now
      → Early t now e
      → OpenedAt (e ∷ es) now
  unfolding run_events
  stays_open (calling f n l) es now o h = ground (arith, after-Follows es)
  stays_open (ticking n l) es now o h = ground (arith, after-Follows es)

  stayed_open :
      (e : Event) (es : List Event)
      → (after es).state ≡ state_open
      → (after (e ∷ es)).state ≡ state_open
      → ((after (e ∷ es)).last_failure_time ≡ (after es).last_failure_time)
        × Early t (after es).last_failure_time e
  unfolding run_events
  stayed_open (calling f n l) es o p = (ground arith, tt)
  stayed_open (ticking n l) es o p = ground (arith, after-Follows es)

  -- An open breaker that was not open before.
  just_opened :
      (e : Event) (es : List Event)
      → is_open (after es) ≡ false
      → (after (e ∷ es)).state ≡ state_open
      → (now later : ℕ) × (e ≡ calling true now later)
        × IsTripping es
        × ((after (e ∷ es)).last_failure_time ≡ now)
  unfolding run_events is_open
  just_opened (calling true n l) es c o = (n, l, refl, tripping, ground arith)
    where
      tripping : IsTripping es
      tripping = elim (is_state (after es).state) [
        | inl shut ↦ inr (shut, ground (arith, after-Follows es))
        | inr (inl p) ↦ cc
        | inr (inr half) ↦ inl half
      ]
  just_opened (calling false n l) es c o = absurd (ground arith)
  just_opened (ticking n l) es c o = absurd (ground arith)

  -- The opening failure, its time being the last failure's.
  opened_by :
      (es : List Event)
      → (after es).state ≡ state_open
      → (since before : List Event) × (now later : ℕ) × (es
          ≡ since ++ (calling true now later ∷ before))
        × All (Early t now) since
        × IsTripping before
        × ((after es).last_failure_time ≡ now)
  unfolding run_events new_circuit_breaker
  opened_by [] o = cc
  opened_by (e ∷ es) o = elim (Bool-cases (is_open (after es))) [
    | inl was ↦
        let before_open : (after es).state ≡ state_open = unfold is_open in ground arith in
        let (since, before, now, later, eq, early, trip, at) = opened_by es before_open in
        let (kept, early_e) = stayed_open e es before_open o in
        (
          e ∷ since,
          before,
          now,
          later,
          ap (λ xs. e ∷ xs) eq,
          (subst (λ n. Early t n e) at early_e, early),
          trip,
          kept ∙ at,
        )
    | inr was_not ↦
        let (now, later, eq, trip, at) = just_opened e es was_not o in
        ([], es, now, later, ap (λ x. x ∷ es) eq, tt, trip, at)
  ]

  still_open :
      (since before : List Event) (now later : ℕ)
      → All (Early t now) since
      → IsTripping before
      → OpenedAt (since ++ (calling true now later ∷ before)) now
  still_open [] before now later early trip = trips before now later trip
  still_open (e ∷ since) before now later early trip =
      stays_open e (since ++ (calling true now later ∷ before)) now
        (still_open since before now later early.1 trip) early.0

-- A client that calls in turn and the ticks of the goroutine, in any order and at any times, after
-- `NewCircuitBreaker`: the breaker is open exactly when a call failed that opened it, in the half-
-- open state or in the closed one as at least the `maxFailures`-th failure in a row (a tick does
-- not end a row), and no tick since came more than the timeout after that failure.
pub open_iff_failure_run :
    (m s t start : ℕ) (es : List Event)
    → (is_open (run_events (new_circuit_breaker m s t start) es) ≡ true) ↔ IsTripped m s t start es
open_iff_failure_run m s t start es = (
  (λ o.
      let (since, before, now, later, eq, early, trip, _) =
        opened_by m s t start es (unfold is_open in ground arith) in
      (since, before, now, later, eq, early, trip)),
  (λ (since, before, now, later, eq, early, trip).
      let (o, _) = still_open m s t start since before now later early trip in
      rw eq (unfold is_open in rw o refl)),
)

-- A call that succeeds; a tick is no call.
abbrev pub Succeeding : Event → Type 0
Succeeding (calling failed now later) = failed ≡ false
Succeeding (ticking now later) = Unit

unfoldable pub calls_in : List Event → ℕ
calls_in [] = 0
calls_in (calling _ _ _ ∷ es) = suc (calls_in es)
calls_in (ticking _ _ ∷ es) = calls_in es

-- A half-open breaker counts successes up to the threshold, and ticks leave it alone.
half_open_run :
    (cb : CircuitBreaker) (es : List Event)
    → cb.state ≡ state_half_open
    → cb.successes ≡ 0
    → 0 < cb.success_threshold
    → All Succeeding es
    → let c = run_events cb es in
      (c.success_threshold ≡ cb.success_threshold)
      × (((calls_in es < cb.success_threshold)
            × (c.state ≡ state_half_open)
            × (c.successes ≡ calls_in es))
          ⊎ ((cb.success_threshold ≤ calls_in es) × (c.state ≡ state_closed)))
unfolding run_events calls_in
half_open_run cb [] h z p a = (refl, inl (omega arith, h, z))
half_open_run cb (calling true now later ∷ es) h z p a = cc (a.0)
half_open_run cb (calling false now later ∷ es) h z p a =
    ground (arith, half_open_run cb es h z p a.1)
half_open_run cb (ticking now later ∷ es) h z p a = ground (arith, half_open_run cb es h z p a.1)

-- An open breaker with a positive `successThreshold` whose goroutine runs, once more than the
-- timeout has passed since its last failure: after that tick it admits calls, and when these all
-- succeed, whatever ticks come between them, it is half-open while there are fewer of them than
-- `successThreshold` and closed from then on.
pub recovers :
    (cb : CircuitBreaker) (now later : ℕ) (es : List Event)
    → cb.stopped ≡ false
    → cb.state ≡ state_open
    → cb.timeout < now - cb.last_failure_time
    → 0 < cb.success_threshold
    → All Succeeding es
    → (is_open (auto_recovery cb now later) ≡ false)
      × ((run_events (auto_recovery cb now later) es).state
          ≡ (if ltb (calls_in es) cb.success_threshold then state_half_open else state_closed))
recovers cb now later es r o late pos a = (
  unfold is_open in ground (arith, tick_half_open),
  ground (
    arith,
    half_open_run (auto_recovery cb now later) es tick_half_open.0 tick_half_open.2
        (omega (arith, tick_half_open.1)) a,
    tick_half_open,
  ),
)
  where
    tick_half_open :
        ((auto_recovery cb now later).state ≡ state_half_open)
        × ((auto_recovery cb now later).success_threshold ≡ cb.success_threshold)
        × ((auto_recovery cb now later).successes ≡ 0)
    tick_half_open = unfold auto_recovery in (ground arith, ground arith, ground arith)
