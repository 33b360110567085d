-- ===== src/ConnectionManager/Backoff.antt =====
-- The waits between the attempts to connect.
use native.Mathlib.Nat.{two-pow-succ}
use mcp_bridge.Prelude.{
  ℕ, ◌+◌, ◌*◌, ◌%◌, ◌^◌, ◌≡◌, refl, ap, ◌∙◌, Bool, true, false, List, [], ◌∷◌, arith, if_cases,
  if◌then◌else◌, leb, min,
}
use mcp_bridge.ConnectionManager.{
  ConnectionManager, Maintenance, maintain_connection, attempt, attempt_all, second, max_attempts,
  next_backoff, set_state, connecting, failed,
}

-- The waits by the number of failures in a row before, the last first: 2^k seconds, a minute at
-- most, and none once an attempt has failed after 10 failures in a row.
abbrev pub wait_after : ℕ → ℕ
wait_after k = min (2 ^ k * second) (60 * second)

abbrev pub schedule : ℕ → List Bool → List ℕ → List ℕ
schedule k [] waits = waits
schedule k (true ∷ os) waits = schedule 0 os waits
schedule k (false ∷ os) waits =
    let rest = schedule (k + 1) os (wait_after k ∷ waits) in
    if leb max_attempts k then waits else rest

-- There is a failure after 10 failures in a row.
abbrev pub gives_up : ℕ → List Bool → Bool
gives_up k [] = false
gives_up k (true ∷ os) = gives_up 0 os
gives_up k (false ∷ os) =
    let rest = gives_up (k + 1) os in if leb max_attempts k then true else rest

next_wait : (k : ℕ) → next_backoff (wait_after k) ≡ wait_after (k + 1)
next_wait k = ground (arith, two-pow-succ k)

attempt_all-gave_up : (os : List Bool) (m : Maintenance) → m.gave_up ≡ true → attempt_all os m ≡ m
unfolding attempt_all
attempt_all-gave_up [] m e = refl
attempt_all-gave_up (o ∷ os) m e = if_cases (λ r. r ≡ m) m.gave_up _ _ (λ _. refl) (λ on. absurd cc)

Follows : ℕ → List Bool → List ℕ → Maintenance → Type 0
Follows k os waits r = (r.waits ≡ schedule k os waits) × (r.gave_up ≡ gives_up k os)

-- The model and the schedule take the same branch.
branches-Follow :
    (os : List Bool) (b : Bool) (x y : Maintenance) (w v : List ℕ) (g : Bool)
    → (b ≡ true → ((attempt_all os x).waits ≡ w) × ((attempt_all os x).gave_up ≡ true))
    → (b ≡ false → ((attempt_all os y).waits ≡ v) × ((attempt_all os y).gave_up ≡ g))
    → let r = attempt_all os (if b then x else y) in
      (r.waits ≡ (if b then w else v)) × (r.gave_up ≡ (if b then true else g))
branches-Follow os true x y w v g h k = h refl
branches-Follow os false x y w v g h k = k refl

attempt_all-Follows :
    (os : List Bool) (m : Maintenance)
    → m.gave_up ≡ false
    → m.backoff ≡ wait_after m.attempts
    → Follows m.attempts os m.waits (attempt_all os m)
unfolding attempt_all Follows attempt
attempt_all-Follows [] m on b = (refl, on)
attempt_all-Follows (true ∷ os) m on b =
    if_cases (Follows m.attempts (true ∷ os) m.waits) m.gave_up _ _ (λ off. absurd cc)
      (λ _. attempt_all-Follows os (attempt true m) on refl)
attempt_all-Follows (false ∷ os) m on b =
    let cm = set_state failed (set_state connecting m.manager) in
    let cm' = record cm { retries = (cm.retries + 1) % 2 ^ 64 } in
    let over = record m { manager = cm'; gave_up = true } in
    let further = record m {
      manager = cm';
      backoff = next_backoff m.backoff;
      attempts = m.attempts + 1;
      waits = m.backoff ∷ m.waits;
    } in
    let (w, g) = attempt_all-Follows os further on (ap next_backoff b ∙ next_wait m.attempts) in
    let end = attempt_all-gave_up os over refl in
    if_cases (Follows m.attempts (false ∷ os) m.waits) m.gave_up _ _ (λ off. absurd cc)
      (λ _.
        branches-Follow os (leb max_attempts m.attempts) over further _ _ _
          (λ _. (ap (λ r. r.waits) end, ap (λ r. r.gave_up) end))
          (λ _. (w ∙ ap (λ z. schedule (m.attempts + 1) os (z ∷ m.waits)) b, g)))

-- From the start, for any answers of the attempts: the wait after a failure that k failures in a
-- row come before is 2^k seconds, and a minute at most, a connection starts the count again, and
-- the manager gives up exactly when an attempt fails after 10 failures in a row, with no wait and
-- no attempt after it.
pub maintain_connection-schedule :
    (cm : ConnectionManager) (os : List Bool)
    → let r = attempt_all os (maintain_connection cm) in
      (r.waits ≡ schedule 0 os []) × (r.gave_up ≡ gives_up 0 os)
unfolding maintain_connection Follows
maintain_connection-schedule cm os = attempt_all-Follows os (maintain_connection cm) refl refl
