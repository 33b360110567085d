-- ===== src/SlidingWindow/Waiting.antt =====
-- `Wait` of the sliding-window limiter: a loop that polls `Allow` with a growing pause. A time-out
-- of `late` after each pause stands for what the scheduler adds, and `done` says from the time when
-- the context's channel is closed. No other caller uses the limiter meanwhile.
use mcp_bridge.Prelude.{
  ℕ, zero, suc, ◌+◌, ◌*◌, ◌≤◌, ◌<◌, ◌≡◌, refl, ◌⊎◌, inl, inr, Bool, true, false, List, [], ◌∷◌,
  arith, ltb, leb, ◌==◌, if◌then◌else◌, count_if, All, All-keep, Bool-cases, if_cases, sym, ◌∙◌,
}
use mcp_bridge.RateLimit.Window.{within}
use mcp_bridge.SlidingWindow.{SlidingWindow, cleanup, clean_when_due, admit, allow}

abbrev pub default_backoff_time : ℕ
default_backoff_time = 10_000_000

abbrev pub max_backoff : ℕ
max_backoff = 1_000_000_000

unfoldable pub next_backoff : ℕ → ℕ
next_backoff backoff = if ltb max_backoff (backoff * 2) then max_backoff else backoff * 2

-- How `Wait` returns, and when; `exhausted` is a run out of fuel.
pub data WaitResult : Type 0 where
  admitted canceled : ℕ → WaitResult
  exhausted : WaitResult

module _ (done : ℕ → Bool) (late : ℕ → ℕ) where
  -- The loop, by the rounds left. A context done when the pause ends is seen by either `select`.
  unfoldable pub wait_from : ℕ → ℕ → SlidingWindow → ℕ → SlidingWindow × WaitResult
  unfolding next_backoff
  wait_from zero backoff l now = (l, exhausted)
  wait_from (suc fuel) backoff l now =
      let (l', granted) = allow l now in
      let rest = wait_from fuel (next_backoff backoff) l' (now + backoff + late (now + backoff)) in
      if done now
      then (l, canceled now)
      else if granted
      then (l', admitted now)
      else if done (now + backoff)
      then (l', canceled (now + backoff))
      else rest

  unfoldable pub wait : ℕ → SlidingWindow → ℕ → SlidingWindow × WaitResult
  unfolding wait_from
  wait fuel l now = wait_from fuel default_backoff_time l now

-- All that the limiter has let through was let through by `since`.
pub record Idle (l : SlidingWindow) (w max_events since : ℕ) : Type 0 where
  pub window : l.window_size ≡ w
  pub bound : l.max_events ≡ max_events
  pub old : All (λ x. x ≤ since) l.events

none_within :
    (w since now : ℕ) (xs : List ℕ)
    → since + w ≤ now
    → All (λ x. x ≤ since) xs
    → count_if (within w now) xs ≡ 0
none_within w since now [] h a = refl
none_within w since now (x ∷ xs) h (a, hs) = ground (arith, none_within w since now xs h hs)

clean-Idle :
    (l : SlidingWindow) (w m since now : ℕ)
    → Idle l w m since
    → Idle (clean_when_due l now) w m since
unfolding clean_when_due cleanup
clean-Idle l w m since now i =
    if_cases (λ r. Idle r w m since) (ltb l.cleanup_at now) _ _
      (λ due. record {
        window = i.window;
        bound = i.bound;
        old = All-keep (λ x. x ≤ since) (within l.window_size now) l.events i.old;
      })
      (λ early. i)

-- A refusal leaves the limiter idle.
admit-Idle :
    (l : SlidingWindow) (w m since now : ℕ)
    → Idle l w m since
    → ((admit l now).1 ≡ false → Idle (admit l now).0 w m since)
      × (since + w ≤ now → 0 < m → (admit l now).1 ≡ true)
unfolding admit
admit-Idle l w m since now i =
    if_cases
      (λ (r : SlidingWindow × Bool).
        (r.1 ≡ false → Idle r.0 w m since) × (since + w ≤ now → 0 < m → r.1 ≡ true))
      (leb l.max_events (count_if (within l.window_size now) l.events)) _ _
      (λ full. (
        (λ _. i),
        (λ h p.
            let n = none_within l.window_size since now l.events (omega (arith, i.window)) i.old in
            absurd (ground (arith, full, n, i.bound, p))),
      ))
      (λ free. ((λ (e : true ≡ false). absurd cc), (λ h p. refl)))

allow-Idle :
    (l : SlidingWindow) (w m since now : ℕ)
    → Idle l w m since
    → ((allow l now).1 ≡ false → Idle (allow l now).0 w m since)
      × (since + w ≤ now → 0 < m → (allow l now).1 ≡ true)
unfolding allow
allow-Idle l w m since now i =
    if_cases
      (λ (r : SlidingWindow × Bool).
        (r.1 ≡ false → Idle r.0 w m since) × (since + w ≤ now → 0 < m → r.1 ≡ true))
      (l.max_events == 0) _ _
      (λ shut. ((λ _. i), (λ h p. absurd (ground (arith, shut, i.bound, p)))))
      (λ _. admit-Idle (clean_when_due l now) w m since now (clean-Idle l w m since now i))

next_backoff-bounds :
    (b : ℕ)
    → default_backoff_time ≤ b
    → (default_backoff_time ≤ next_backoff b) × (next_backoff b ≤ max_backoff)
unfolding next_backoff
next_backoff-bounds b h = ground arith

-- The time by which the limiter admits, or the context is done.
abbrev pub IsDeadline : (ℕ → Bool) → ℕ → ℕ → ℕ → ℕ → Type 0
IsDeadline done w max_events since d =
    ((0 < max_events) × (since + w ≤ d)) ⊎ ((t : ℕ) → d ≤ t → done t ≡ true)

abbrev pub Ended : (ℕ → Bool) → ℕ → ℕ → WaitResult → Type 0
Ended done now last r =
    (t : ℕ) × (now ≤ t) × (t ≤ last) × ((r ≡ admitted t) ⊎ ((r ≡ canceled t) × (done t ≡ true)))

-- From the deadline on a context that is not done finds the limiter free.
free_by_deadline :
    (done : ℕ → Bool) (l : SlidingWindow) (w m since now d : ℕ)
    → Idle l w m since
    → IsDeadline done w m since d
    → d ≤ now
    → done now ≡ false
    → (allow l now).1 ≡ true
free_by_deadline done l w m since now d i (inl (p, h)) passed open_ =
    (allow-Idle l w m since now i).1 (omega (arith, h, passed)) p
free_by_deadline done l w m since now d i (inr over) passed open_ =
    let e : done now ≡ true = over now passed in cc

module _ (done : ℕ → Bool) (late : ℕ → ℕ) (lateness : ℕ)
    (in_time : (t : ℕ) → late t ≤ lateness) where
  -- One round, given what the next ones come to after a refusal before the deadline.
  round-Ended :
      (fuel backoff : ℕ) (l : SlidingWindow) (w m since now d : ℕ)
      → backoff ≤ max_backoff
      → Idle l w m since
      → IsDeadline done w m since d
      → now ≤ d + max_backoff + lateness
      → (let next = now + backoff + late (now + backoff) in
          now < d
          → Idle (allow l now).0 w m since
          → Ended done next
              (d + max_backoff + lateness)
              (wait_from done late fuel (next_backoff backoff) (allow l now).0 next).1)
      → Ended done now (d + max_backoff + lateness) (wait_from done late (suc fuel) backoff l now).1
  unfolding wait_from
  round-Ended fuel backoff l w m since now d b' i dl below rest =
      if_cases P (done now) _ _ (λ over. (now, omega arith, below, inr (refl, over)))
        (λ open_.
          if_cases P (allow l now).1 _ _ (λ granted. (now, omega arith, below, inl refl))
            (λ refused.
              let early : now < d = elim (Bool-cases (leb d now)) [
                | inl passed ↦ absurd (
                    let e : (allow l now).1 ≡ true =
                      free_by_deadline done l w m since now d i dl (ground (arith, passed)) open_ in
                    let e' : true ≡ false = sym e ∙ refused in cc)
                | inr not_yet ↦ ground (arith, not_yet)
              ] in
              if_cases P (done (now + backoff)) _ _
                (λ over. (now + backoff, omega arith, omega (arith, early, b'), inr (refl, over)))
                (λ _.
                  let (t, after, by, how) = rest early ((allow-Idle l w m since now i).0 refused) in
                  (t, omega (arith, after), by, how))))
    where
      P : SlidingWindow × WaitResult → Type 0
      P r = Ended done now (d + max_backoff + lateness) r.1

  wait_from-Ended :
      (fuel backoff : ℕ) (l : SlidingWindow) (w m since now d : ℕ)
      → default_backoff_time ≤ backoff
      → backoff ≤ max_backoff
      → Idle l w m since
      → IsDeadline done w m since d
      → d ≤ now + fuel * default_backoff_time
      → now ≤ d + max_backoff + lateness
      → Ended done now (d + max_backoff + lateness) (wait_from done late (suc fuel) backoff l now).1
  wait_from-Ended zero backoff l w m since now d b b' i dl enough below =
      round-Ended zero backoff l w m since now d b' i dl below
        (λ early _. absurd (omega (arith, early, enough)))
  wait_from-Ended (suc fuel) backoff l w m since now d b b' i dl enough below =
      round-Ended (suc fuel) backoff l w m since now d b' i dl below (λ early i'.
        let (lo, hi) = next_backoff-bounds backoff b in
        let soon = in_time (now + backoff) in
        wait_from-Ended fuel (next_backoff backoff) (allow l now).0 w m since
          (now + backoff + late (now + backoff)) d lo hi i' dl (omega (arith, enough, b))
          (omega (arith, early, b', soon)))

  -- `Wait` ends. Take a time by which the context is done for good, or else, for a limiter of a
  -- positive maximum, by which all that it has let through has left its window. If nobody else uses
  -- the limiter and the scheduler is late by a bounded time, then with fuel for the pauses of 10 ms
  -- up to that time, `Wait` returns at most one second and that lateness after it: as admitted, or
  -- as canceled by a context that is done then.
  pub wait_ends :
      (fuel now d : ℕ) (l : SlidingWindow)
      → All (λ x. x ≤ now) l.events
      → IsDeadline done l.window_size l.max_events now d
      → now ≤ d
      → d ≤ now + fuel * default_backoff_time
      → Ended done now (d + max_backoff + lateness) (wait done late (suc fuel) l now).1
  unfolding wait
  wait_ends fuel now d l old dl ahead enough =
      wait_from-Ended fuel default_backoff_time l l.window_size l.max_events now now d (omega arith)
        (omega arith) (record { window = refl; bound = refl; old = old }) dl enough
        (omega (arith, ahead))
