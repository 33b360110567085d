-- ===== src/RouterBreaker/Recovery.antt =====
-- The router's breaker while it is open: until the recovery timeout and after it.
use mathlib.Core.Path.{ap₂}
use mcp_bridge.Prelude.{
  ℕ, ◌+◌, ◌≤◌, ◌≡◌, refl, sym, ap, ◌∙◌, subst, ◌⊎◌, inl, inr, Bool, true, false, List, [], ◌∷◌,
  arith, tests, map, ◌==◌, ◌||◌, ltb, leb, length, Bool-cases, if◌then◌else◌, All,
}
use mcp_bridge.RouterBreaker.{
  CircuitState, circuit_closed, circuit_open, circuit_half_open, Breaker, Outcome, succeeded,
  failed, timed_out, ExecuteResult, rejected, executed, record_success, record_failure, set_state,
  cleanup_old_failures, execute, allow_request, record_outcome, recovery_due,
}

-- A request of one client: when it starts, how it would end, and when.
pub record Attempt : Type 0 where
  pub now : ℕ
  pub outcome : Outcome
  pub done : ℕ

unfoldable pub attempts : Breaker → List Attempt → Breaker
attempts cb [] = cb
attempts cb (a ∷ rest) = attempts (execute cb a.now a.outcome a.done).0 rest

unfoldable pub results : Breaker → List Attempt → List ExecuteResult
results cb [] = []
results cb (a ∷ rest) = let (cb', r) = execute cb a.now a.outcome a.done in r ∷ results cb' rest

-- What the two breakers agree on while the breaker stays open.
pub record StaysOpen (cb cb' : Breaker) : Type 0 where
  pub open_still : cb'.state ≡ circuit_open
  pub since : cb'.state_changed_at ≡ cb.state_changed_at
  pub config_same : cb'.config ≡ cb.config

failure_while_open :
    (cb : Breaker) (now : ℕ) → cb.state ≡ circuit_open → StaysOpen cb (record_failure cb now)
unfolding record_failure cleanup_old_failures
failure_while_open cb now e = go cb.state e
  where
    go :
        (s : CircuitState)
        → s ≡ circuit_open
        → StaysOpen (record cb { state = s }) (record_failure (record cb { state = s }) now)
    go circuit_open e = record { open_still = refl; since = refl; config_same = refl }
    go circuit_closed e = cc
    go circuit_half_open e = cc

-- The outcomes that count rest a failure.
abbrev pub is_failure : Outcome → Bool
is_failure succeeded = false
is_failure failed = true
is_failure timed_out = true

-- What an open breaker answers an attempt, by the clock.
abbrev pub verdict : Breaker → Attempt → ExecuteResult
verdict cb a = if recovery_due cb a.now then executed a.outcome else rejected

-- The attempt does not succeed past the recovery timeout.
abbrev pub NoRecovery : Breaker → Attempt → Type 0
NoRecovery cb a = (recovery_due cb a.now ≡ false) ⊎ (is_failure a.outcome ≡ true)

failed_outcome :
    (cb : Breaker) (o : Outcome) (now : ℕ)
    → is_failure o ≡ true
    → record_outcome cb o now ≡ record_failure cb now
unfolding record_outcome
failed_outcome cb succeeded now e = cc
failed_outcome cb failed now e = refl
failed_outcome cb timed_out now e = refl

let_through :
    (cb : Breaker) (now : ℕ) (o : Outcome) (done : ℕ)
    → allow_request cb now ≡ true
    → execute cb now o done ≡ (record_outcome cb o done, executed o)
unfolding execute
let_through cb now o done e = ground arith

turned_away :
    (cb : Breaker) (now : ℕ) (o : Outcome) (done : ℕ)
    → allow_request cb now ≡ false
    → execute cb now o done ≡ (record_failure cb done, rejected)
unfolding execute
turned_away cb now o done e = ground arith

allow_request-open :
    (cb : Breaker) (now : ℕ) → cb.state ≡ circuit_open → allow_request cb now ≡ recovery_due cb now
unfolding allow_request
allow_request-open cb now e = rw e refl

execute_while_open :
    (cb : Breaker) (a : Attempt)
    → cb.state ≡ circuit_open
    → NoRecovery cb a
    → execute cb a.now a.outcome a.done ≡ (record_failure cb a.done, verdict cb a)
execute_while_open cb a e h = elim (Bool-cases (recovery_due cb a.now)) [
  | inl due ↦
      let_through cb a.now a.outcome a.done (allow_request-open cb a.now e ∙ due)
      ∙ ap₂ (λ x y. (x, y)) (failed_outcome cb a.outcome a.done (bad due h)) (rw due refl)
  | inr early ↦
      turned_away cb a.now a.outcome a.done (allow_request-open cb a.now e ∙ early)
      ∙ ap (λ y. (record_failure cb a.done, y)) (rw early refl)
]
  where
    bad : recovery_due cb a.now ≡ true → NoRecovery cb a → is_failure a.outcome ≡ true
    bad due (inl early) = cc
    bad due (inr f) = f

-- An open breaker that was opened at the same time with the same configuration.
StaysOpen-trans : (a b c : Breaker) → StaysOpen a b → StaysOpen b c → StaysOpen a c
StaysOpen-trans a b c k l = record {
  open_still = l.open_still;
  since = l.since ∙ k.since;
  config_same = l.config_same ∙ k.config_same;
}

-- An open breaker and attempts none of which succeeds past the recovery timeout: each is answered
-- by the clock alone, a rejection before the timeout and the operation itself after it, however
-- many have failed since; the breaker stays open and its timeout is not started again.
pub open_answers_by_clock :
    (cb : Breaker) (rest : List Attempt)
    → cb.state ≡ circuit_open
    → All (NoRecovery cb) rest
    → (results cb rest ≡ map (verdict cb) rest) × StaysOpen cb (attempts cb rest)
unfolding results attempts
open_answers_by_clock cb [] e h =
    (refl, record { open_still = e; since = refl; config_same = refl })
open_answers_by_clock cb (a ∷ rest) e (h, hs) =
    let step = execute_while_open cb a e h in
    let k = failure_while_open cb a.done e in
    let d = ap₂ (λ x y. x + y.recovery_timeout) k.since k.config_same in
    let hs' =
      subst (λ t. All (λ b. (leb t b.now ≡ false) ⊎ (is_failure b.outcome ≡ true)) rest) (sym d)
        hs in
    let (r, l) = open_answers_by_clock (record_failure cb a.done) rest k.open_still hs' in
    rw step (
      ap₂ (λ x xs. x ∷ xs) refl
          (r ∙ ap (λ t. map (λ b. if leb t b.now then executed b.outcome else rejected) rest) d),
      StaysOpen-trans cb (record_failure cb a.done) _ k l,
    )

-- One success that is let through.
succeed :
    (cb : Breaker) (a : Attempt)
    → a.outcome ≡ succeeded
    → allow_request cb a.now ≡ true
    → (execute cb a.now a.outcome a.done).0 ≡ record_success cb a.done
unfolding record_outcome
succeed cb a h e =
    ap (λ r. r.0) (let_through cb a.now a.outcome a.done e) ∙ ap (λ o. record_outcome cb o a.done) h

closed_success :
    (cb : Breaker) (now : ℕ)
    → cb.state ≡ circuit_closed
    → (allow_request cb now ≡ true) × ((record_success cb now).state ≡ circuit_closed)
unfolding record_success allow_request
closed_success cb now e = go cb.state e
  where
    go :
        (s : CircuitState)
        → s ≡ circuit_closed
        → (allow_request (record cb { state = s }) now ≡ true)
          × ((record_success (record cb { state = s }) now).state ≡ circuit_closed)
    go circuit_closed e = (refl, refl)
    go circuit_open e = cc
    go circuit_half_open e = cc

closed_run :
    (cb : Breaker) (rest : List Attempt)
    → cb.state ≡ circuit_closed
    → All (λ a. a.outcome ≡ succeeded) rest
    → (attempts cb rest).state ≡ circuit_closed
unfolding attempts
closed_run cb [] e h = e
closed_run cb (a ∷ rest) e (h, hs) =
    ap (λ c. (attempts c rest).state) (succeed cb a h (closed_success cb a.now e).0)
    ∙ closed_run (record_success cb a.done) rest (closed_success cb a.done e).1 hs

-- A success in a half-open breaker.
half_open_success :
    (cb : Breaker) (now : ℕ)
    → cb.state ≡ circuit_half_open
    → let cb' = record_success cb now in
      (allow_request cb now ≡ true)
      × (cb'.state ≡ (
          if leb cb.config.success_threshold (cb.consecutive_successes + 1)
          then circuit_closed
          else circuit_half_open))
      × (cb'.consecutive_successes ≡ cb.consecutive_successes + 1)
      × (cb'.config ≡ cb.config)
unfolding record_success allow_request set_state
half_open_success cb now e = go cb.state e
  where
    go :
        (s : CircuitState)
        → s ≡ circuit_half_open
        → let cb' = record_success (record cb { state = s }) now in
          (allow_request (record cb { state = s }) now ≡ true)
          × (cb'.state ≡ (
              if leb cb.config.success_threshold (cb.consecutive_successes + 1)
              then circuit_closed
              else circuit_half_open))
          × (cb'.consecutive_successes ≡ cb.consecutive_successes + 1)
          × (cb'.config ≡ cb.config)
    go circuit_half_open e = ground arith
    go circuit_open e = cc
    go circuit_closed e = cc

-- A half-open breaker on successes alone.
half_open_run :
    (cb : Breaker) (rest : List Attempt)
    → cb.state ≡ circuit_half_open
    → All (λ a. a.outcome ≡ succeeded) rest
    → (attempts cb rest).state ≡ (
        if length rest == 0
          || ltb (cb.consecutive_successes + length rest) cb.config.success_threshold
        then circuit_half_open
        else circuit_closed)
unfolding attempts
half_open_run cb [] e h = e
half_open_run cb (a ∷ rest) e (h, hs) =
    let (_, s, n, c) = half_open_success cb a.done e in
    ap (λ c. (attempts c rest).state) (succeed cb a h (half_open_success cb a.now e).0)
    ∙ elim (Bool-cases (leb cb.config.success_threshold (cb.consecutive_successes + 1))) [
      | inl enough ↦
          closed_run (record_success cb a.done) rest (s ∙ rw enough refl) hs ∙ ground arith
      | inr few ↦
          half_open_run (record_success cb a.done) rest (s ∙ rw few refl) hs
          ∙ rw (n, c) (ground arith)
    ]

open_success :
    (cb : Breaker) (now : ℕ)
    → cb.state ≡ circuit_open
    → recovery_due cb now ≡ true
    → let cb' = record_success cb now in
      (cb'.state ≡ circuit_half_open)
      × (cb'.consecutive_successes ≡ cb.consecutive_successes + 1)
      × (cb'.config ≡ cb.config)
unfolding record_success set_state
open_success cb now e due = go cb.state e
  where
    go :
        (s : CircuitState)
        → s ≡ circuit_open
        → let cb' = record_success (record cb { state = s }) now in
          (cb'.state ≡ circuit_half_open)
          × (cb'.consecutive_successes ≡ cb.consecutive_successes + 1)
          × (cb'.config ≡ cb.config)
    go circuit_open e = ground arith
    go circuit_half_open e = cc
    go circuit_closed e = cc

-- An open breaker with no success counted, and requests that all succeed, the first one starting
-- past the recovery timeout and not ending before it starts: the breaker is closed once there are
-- at least two of them and as many as the success threshold, and half-open before that. The success
-- that opens it half-way counts towards the threshold.
pub recovery_takes :
    (cb : Breaker) (a : Attempt) (rest : List Attempt)
    → cb.state ≡ circuit_open
    → cb.consecutive_successes ≡ 0
    → recovery_due cb a.now ≡ true
    → a.now ≤ a.done
    → All (λ b. b.outcome ≡ succeeded) (a ∷ rest)
    → (attempts cb (a ∷ rest)).state ≡ (
        if length rest == 0 || ltb (1 + length rest) cb.config.success_threshold
        then circuit_half_open
        else circuit_closed)
unfolding attempts
recovery_takes cb a rest e z due l (h, hs) =
    let (s, n, c) = open_success cb a.done e (omega tests) in
    ap (λ c. (attempts c rest).state) (succeed cb a h (allow_request-open cb a.now e ∙ due))
    ∙ half_open_run (record_success cb a.done) rest s hs
    ∙ rw (n ∙ ap (λ t. t + 1) z, c) refl
