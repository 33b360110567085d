-- ===== src/SlidingWindow/Refinement.antt =====
-- The sliding-window limiter against one that keeps the log of all it let through.
use mathlib.Core.Path.{ap₂}
use mcp_bridge.Prelude.{
  ℕ, ◌≤◌, ◌<◌, ◌≡◌, refl, ap, ◌∙◌, Bool, true, false, List, [], ◌∷◌, ◌++◌, arith, tests, ltb, leb,
  ◌==◌, if◌then◌else◌, count_if, count_if-append, Bool-cases, inl, inr, ◌⊎◌,
}
use mcp_bridge.RateLimit.Window.{within, count_if-keep-within, count_if-within_later, count_if-snoc}
use mcp_bridge.SlidingWindow.{SlidingWindow, new_sliding_window, clean_when_due, admit, allow}

-- The specification: a request is let through if fewer than `max_events` were in the window.
unfoldable pub room : ℕ → ℕ → List ℕ → ℕ → Bool
room w max_events log now = ltb (count_if (within w now) log) max_events

unfoldable pub log_answers : ℕ → ℕ → List ℕ → List ℕ → List Bool
log_answers w max_events log [] = []
log_answers w max_events log (now ∷ nows) =
    room w max_events log now
    ∷ log_answers w max_events (if room w max_events log now then log ++ now ∷ [] else log) nows

unfoldable pub answers : SlidingWindow → List ℕ → List Bool
answers l [] = []
answers l (now ∷ nows) = let (l', ok) = allow l now in ok ∷ answers l' nows

-- The times of the requests that were let through.
unfoldable pub accepted : SlidingWindow → List ℕ → List ℕ → List ℕ
accepted l log [] = log
accepted l log (now ∷ nows) =
    let (l', ok) = allow l now in accepted l' (if ok then log ++ now ∷ [] else log) nows

-- The clock does not go back.
abbrev pub InOrder : ℕ → List ℕ → Type 0
InOrder clock [] = Unit {0}
InOrder clock (now ∷ nows) = (clock ≤ now) × InOrder now nows

abbrev pub end_time : ℕ → List ℕ → ℕ
end_time clock [] = clock
end_time clock (now ∷ nows) = end_time now nows

-- From `clock` on the limiter's events count as the log does, up to its maximum.
pub record Tracks (l : SlidingWindow) (w max_events clock : ℕ) (log : List ℕ) : Type 0 where
  pub window : l.window_size ≡ w
  pub bound : l.max_events ≡ max_events
  pub same : (t : ℕ) → clock ≤ t → count_if (within w t) l.events ≡ count_if (within w t) log
  pub low : (t : ℕ) → clock ≤ t → count_if (within w t) log ≤ max_events

clean-Tracks :
    (l : SlidingWindow) (w m clock now : ℕ) (log : List ℕ)
    → clock ≤ now
    → Tracks l w m clock log
    → Tracks (clean_when_due l now) w m now log
unfolding clean_when_due
clean-Tracks l w m clock now log o v = elim (Bool-cases (ltb l.cleanup_at now)) [
  | inl due ↦ rw due (record {
    window = v.window;
    bound = v.bound;
    same = λ t h.
        rw v.window (count_if-keep-within w w now t l.events (omega arith) h)
        ∙ v.same t (omega arith);
    low = λ t h. v.low t (omega arith);
  })
  | inr early ↦ rw early (record {
    window = v.window;
    bound = v.bound;
    same = λ t h. v.same t (omega arith);
    low = λ t h. v.low t (omega arith);
  })
]

admit_cases :
    (l : SlidingWindow) (w m now : ℕ) (log : List ℕ)
    → Tracks l w m now log
    → ((room w m log now ≡ true)
        × (admit l now ≡ (record l { events = l.events ++ now ∷ [] }, true)))
      ⊎ ((room w m log now ≡ false) × (admit l now ≡ (l, false)))
unfolding admit room
admit_cases l w m now log v =
    let n = ap (λ z. count_if (within z now) l.events) v.window ∙ v.same now (omega arith) in
    elim (Bool-cases (leb l.max_events (count_if (within l.window_size now) l.events))) [
      | inl full ↦ inr (ground (arith, n, v.bound), rw full refl)
      | inr free ↦ inl (ground (arith, n, v.bound), rw free refl)
    ]

-- `Allow` after the clean-up decides as the log does, and keeps track of it.
admit-Tracks :
    (l : SlidingWindow) (w m now : ℕ) (log : List ℕ)
    → Tracks l w m now log
    → ((admit l now).1 ≡ room w m log now)
      × Tracks (admit l now).0 w m now (if room w m log now then log ++ now ∷ [] else log)
admit-Tracks l w m now log v = elim (admit_cases l w m now log v) [
  | inr (full, e) ↦ rw (e, full) (refl, v)
  | inl (free, e) ↦
      rw (e, free)
        (
          refl,
          record {
            window = v.window;
            bound = v.bound;
            same = λ t h. omega (
              arith,
              v.same t h,
              count_if-append (within w t) l.events (now ∷ []),
              count_if-append (within w t) log (now ∷ []),
            );
            low = λ t h.
                omega (
                  tests,
                  below free,
                  count_if-snoc w t now log,
                  count_if-within_later w now t log h,
                );
          },
        )
]
  where
    below : room w m log now ≡ true → count_if (within w now) log < m
    below free = unfold room in omega tests

allow-Tracks :
    (l : SlidingWindow) (w m clock now : ℕ) (log : List ℕ)
    → clock ≤ now
    → Tracks l w m clock log
    → ((allow l now).1 ≡ room w m log now)
      × Tracks (allow l now).0 w m now (if room w m log now then log ++ now ∷ [] else log)
unfolding allow
allow-Tracks l w m clock now log o v = elim (Bool-cases (l.max_events == 0)) [
  | inr some_max ↦
      rw some_max
        (admit-Tracks (clean_when_due l now) w m now log (clean-Tracks l w m clock now log o v))
  | inl none_max ↦
      let shut : room w m log now ≡ false = unfold room in ground (arith, v.bound) in
      rw (none_max, shut)
        (
          refl,
          record {
            window = v.window;
            bound = v.bound;
            same = λ t h. v.same t (omega arith);
            low = λ t h. v.low t (omega arith);
          },
        )
]

start : (w m now : ℕ) → Tracks (new_sliding_window w m now) w m now []
unfolding new_sliding_window
start w m now = record { window = refl; bound = refl; same = λ t h. refl; low = λ t h. omega arith }

answers_from :
    (l : SlidingWindow) (w m clock : ℕ) (log nows : List ℕ)
    → InOrder clock nows
    → Tracks l w m clock log
    → answers l nows ≡ log_answers w m log nows
unfolding answers log_answers
answers_from l w m clock log [] o v = refl
answers_from l w m clock log (now ∷ nows) (h, o) v =
    let (e, v') = allow-Tracks l w m clock now log h v in
    ap₂ (λ x xs. x ∷ xs) e (answers_from (allow l now).0 w m now _ nows o v')

-- With a clock that does not go back, the limiter answers as the specification that keeps the log
-- of every request it let through and counts those in the window: what its clean-up forgets never
-- matters.
pub answers-log_answers :
    (w max_events now : ℕ) (nows : List ℕ)
    → InOrder now nows
    → answers (new_sliding_window w max_events now) nows ≡ log_answers w max_events [] nows
answers-log_answers w m now nows o =
    answers_from (new_sliding_window w m now) w m now [] nows o (start w m now)

accepted-Tracks :
    (l : SlidingWindow) (w m clock : ℕ) (log nows : List ℕ)
    → InOrder clock nows
    → Tracks l w m clock log
    → (t : ℕ) → end_time clock nows ≤ t
    → count_if (within w t) (accepted l log nows) ≤ m
unfolding accepted
accepted-Tracks l w m clock log [] o v t h = v.low t h
accepted-Tracks l w m clock log (now ∷ nows) (g, o) v t h =
    let (e, v') = allow-Tracks l w m clock now log g v in
    rw e (accepted-Tracks (allow l now).0 w m now _ nows o v' t h)

-- With a clock that does not go back, at any time from the last request on, at most `maxEvents`
-- requests were let through in the window before it.
pub accepted_bounded :
    (w max_events now : ℕ) (nows : List ℕ)
    → InOrder now nows
    → (t : ℕ) → end_time now nows ≤ t
    → count_if (within w t) (accepted (new_sliding_window w max_events now) [] nows) ≤ max_events
accepted_bounded w m now nows o =
    accepted-Tracks (new_sliding_window w m now) w m now [] nows o (start w m now)
