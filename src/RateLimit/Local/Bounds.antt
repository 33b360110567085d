-- ===== src/RateLimit/Local/Bounds.antt =====
-- The in-memory limiter over histories of calls, and what its windows hold.
use mcp_bridge.Prelude.{
  All-map, ◌*◌, count_if-append, ℕ, ◌≤◌, ◌<◌, ◌≡◌, refl, sym, ◌∙◌, subst, ◌⊎◌, inl, inr, Bool, true,
  false, ◌&&◌, List, [], ◌∷◌, ◌++◌, leb, if◌then◌else◌, length, keep, count_if, count_if-le, String,
  str_eq, eq_iff, find, put, find-put, arith, tests, All, Bool-cases, Option-cases,
}
use mcp_bridge.RateLimit.{second, RateLimitConfig, minute}
use mcp_bridge.RateLimit.Window.{within, count_if-keep-within, count_if-within_later, count_if-snoc}
use mcp_bridge.RateLimit.Local.{
  burst_exceeded, InMemory, create_local, requests_of, clean_up, admit, allow,
}

pub record Call : Type 0 where
  pub now : ℕ
  pub key : String
  pub config : RateLimitConfig

-- A history of calls, with the times of those for the key `k` that were accepted.
unfoldable pub run : String → InMemory → List Call → List ℕ → InMemory × List ℕ
run k r [] log = (r, log)
run k r (c ∷ cs) log =
    let (r', accepted) = allow r c.now c.key c.config in
    run k r' cs (if accepted && str_eq c.key k then log ++ c.now ∷ [] else log)

-- The clock does not go back.
abbrev pub InOrder : ℕ → List Call → Type 0
InOrder clock [] = Unit {0}
InOrder clock (c ∷ cs) = (clock ≤ c.now) × InOrder c.now cs

abbrev pub end_time : ℕ → List Call → ℕ
end_time clock [] = clock
end_time clock (c ∷ cs) = end_time c.now cs

requests_of-put :
    (r : InMemory) (key k : String) (v : List ℕ)
    → requests_of (record r { requests = put key v r.requests }) k
      ≡ (if str_eq key k then v else requests_of r k)
unfolding requests_of
requests_of-put r key k v = ground (arith, find-put key k v r.requests)

requests_of-clean_up :
    (r : InMemory) (now : ℕ) (key k : String)
    → requests_of (clean_up r now key) k
      ≡ (if str_eq key k then keep (within minute now) (requests_of r k) else requests_of r k)
unfolding requests_of clean_up
requests_of-clean_up r now key k = elim (Option-cases (find key r.requests)) [
  | inl e ↦ ground (arith, eq_iff key k)
  | inr (xs, e) ↦
      ground (arith, eq_iff key k, find-put key k (keep (within minute now) xs) r.requests)
]

-- What an accepted call was tested for, on the requests `s` that its key has left.
abbrev Passed : InMemory → ℕ → RateLimitConfig → List ℕ → Type 0
Passed r now config s =
    (length s < config.requests_per_minute)
    × (0 < config.burst → count_if (within r.burst_window now) s < config.burst)

admit_cases :
    (r : InMemory) (now : ℕ) (key : String) (config : RateLimitConfig)
    → (admit r now key config ≡ (r, false))
      ⊎ ((admit r now key config
            ≡ (record r { requests = put key (requests_of r key ++ now ∷ []) r.requests }, true))
          × Passed r now config (requests_of r key))
unfolding admit
admit_cases r now key config =
    elim (Bool-cases (leb config.requests_per_minute (length (requests_of r key)))) [
      | inl full ↦ inl (rw full refl)
      | inr room ↦ elim (Bool-cases (burst_exceeded r now key config)) [
        | inl burst ↦ inl (rw (room, burst) refl)
        | inr calm ↦ inr (rw (room, calm) refl, (omega tests, calm_bound calm))
      ]
    ]
  where
    calm_bound :
        burst_exceeded r now key config ≡ false
        → 0 < config.burst
        → count_if (within r.burst_window now) (requests_of r key) < config.burst
    calm_bound calm pos = unfold burst_exceeded in ground arith

-- The tests of `config` keep the window `w` below `L`.
abbrev pub Guards : ℕ → ℕ → ℕ → Call → Type 0
Guards bw w L c =
    (0 < c.config.requests_per_minute)
    × ((s : List ℕ)
        → length s < c.config.requests_per_minute
        → (0 < c.config.burst → count_if (within bw c.now) s < c.config.burst)
        → count_if (within w c.now) s < L)

-- From `clock` on, the window of what was accepted counts as that of what is stored, up to `L`.
abbrev Tracks : ℕ → ℕ → ℕ → List ℕ → List ℕ → Type 0
Tracks w L clock log stored =
    (t : ℕ)
    → clock ≤ t
    → (count_if (within w t) log ≡ count_if (within w t) stored) × (count_if (within w t) log ≤ L)

module _ (w L : ℕ) (short : w ≤ minute) where
  Tracks-later :
      (clock now : ℕ) (log stored : List ℕ)
      → clock ≤ now
      → Tracks w L clock log stored
      → Tracks w L now log (keep (within minute now) stored)
  Tracks-later clock now log stored h held t l =
      let (same, low) = held t (omega arith) in
      (same ∙ sym (count_if-keep-within minute w now t stored short l), low)

  Tracks-idle :
      (clock now : ℕ) (log stored : List ℕ)
      → clock ≤ now
      → Tracks w L clock log stored
      → Tracks w L now log stored
  Tracks-idle clock now log stored h held t l = held t (omega arith)

  Tracks-snoc :
      (now : ℕ) (log stored : List ℕ)
      → count_if (within w now) stored < L
      → Tracks w L now log stored
      → Tracks w L now (log ++ now ∷ []) (stored ++ now ∷ [])
  Tracks-snoc now log stored room held t l =
      let (same, low) = held t l in
      (
        omega (
          arith,
          count_if-append (within w t) log (now ∷ []),
          count_if-append (within w t) stored (now ∷ []),
        ),
        omega (arith, count_if-snoc w t now log, count_if-within_later w now t stored l),
      )

-- A call for another key leaves the requests of `k` alone.
allow_other :
    (r : InMemory) (now : ℕ) (key k : String) (config : RateLimitConfig)
    → str_eq key k ≡ false
    → requests_of (allow r now key config).0 k ≡ requests_of r k
unfolding allow admit
allow_other r now key k config other = ground (
  arith,
  requests_of-clean_up r now key k,
  requests_of-put (clean_up r now key) key k (requests_of (clean_up r now key) key ++ now ∷ []),
)

allow-burst_window :
    (r : InMemory) (now : ℕ) (key : String) (config : RateLimitConfig)
    → (allow r now key config).0.burst_window ≡ r.burst_window
unfolding allow admit clean_up
allow-burst_window r now key config = ground arith

-- One call for the key itself.
Tracks-own :
    (w L bw : ℕ) (r : InMemory) (c : Call) (clock : ℕ) (log : List ℕ)
    → w ≤ minute
    → r.burst_window ≡ bw
    → clock ≤ c.now
    → Guards bw w L c
    → Tracks w L clock log (requests_of r c.key)
    → let (r', accepted) = allow r c.now c.key c.config in
      Tracks w L c.now (if accepted then log ++ c.now ∷ [] else log) (requests_of r' c.key)
unfolding allow
Tracks-own w L bw r c clock log short e h g held =
    subst (λ a. Tracks w L c.now (if a.1 then log ++ c.now ∷ [] else log) (requests_of a.0 c.key))
      (sym admitted)
      (elim (admit_cases cleaned c.now c.key c.config) [
        | inl refused ↦ rw refused now_held
        | inr (taken, (room, calm)) ↦ rw taken (
            subst (Tracks w L c.now (log ++ c.now ∷ [])) (sym stored) (
              Tracks-snoc w L short c.now log (requests_of cleaned c.key)
                (g.1 (requests_of cleaned c.key) room (λ p.
                  subst
                    (λ b. count_if (within b c.now) (requests_of cleaned c.key) < c.config.burst)
                    window (calm p)))
                now_held))
      ])
  where
    cleaned : InMemory
    cleaned = clean_up r c.now c.key

    admitted : allow r c.now c.key c.config ≡ admit cleaned c.now c.key c.config
    admitted = ground (arith, g.0)

    left : requests_of cleaned c.key ≡ keep (within minute c.now) (requests_of r c.key)
    left = ground (arith, requests_of-clean_up r c.now c.key c.key, eq_iff c.key c.key)

    now_held : Tracks w L c.now log (requests_of cleaned c.key)
    now_held =
        subst (Tracks w L c.now log) (sym left)
          (Tracks-later w L short clock c.now log (requests_of r c.key) h held)

    stored :
        requests_of
          (record cleaned {
            requests = put c.key (requests_of cleaned c.key ++ c.now ∷ []) cleaned.requests;
          })
          c.key
        ≡ requests_of cleaned c.key ++ c.now ∷ []
    stored = ground (
      arith,
      requests_of-put cleaned c.key c.key (requests_of cleaned c.key ++ c.now ∷ []),
      eq_iff c.key c.key,
    )

    window : cleaned.burst_window ≡ bw
    window = unfold clean_up in ground arith

-- One call, for whatever key.
Tracks-allow :
    (w L bw : ℕ) (k : String) (r : InMemory) (c : Call) (clock : ℕ) (log : List ℕ)
    → w ≤ minute
    → r.burst_window ≡ bw
    → clock ≤ c.now
    → (c.key ≡ k → Guards bw w L c)
    → Tracks w L clock log (requests_of r k)
    → let (r', accepted) = allow r c.now c.key c.config in
      Tracks w L c.now
        (if accepted && str_eq c.key k then log ++ c.now ∷ [] else log)
        (requests_of r' k)
Tracks-allow w L bw k r c clock log short e h g held = elim (Bool-cases (str_eq c.key k)) [
  | inl own ↦
      let same = (eq_iff c.key k).0 own in
      subst (λ b. Tracks w L c.now (if b then log ++ c.now ∷ [] else log) (requests_of after.0 k))
        (sym (flag own))
        (subst
          (λ j.
            Tracks w L c.now (if after.1 then log ++ c.now ∷ [] else log) (requests_of after.0 j))
          same
          (Tracks-own w L bw r c clock log short e h (g same)
            (subst (λ j. Tracks w L clock log (requests_of r j)) (sym same) held)))
  | inr other ↦
      subst (λ b. Tracks w L c.now (if b then log ++ c.now ∷ [] else log) (requests_of after.0 k))
        (sym (no_flag other))
        (subst (Tracks w L c.now log) (sym (allow_other r c.now c.key k c.config other))
          (Tracks-idle w L short clock c.now log (requests_of r k) h held))
]
  where
    after : InMemory × Bool
    after = allow r c.now c.key c.config

    flag : str_eq c.key k ≡ true → (after.1 && str_eq c.key k) ≡ after.1
    flag own = ground (arith, own)

    no_flag : str_eq c.key k ≡ false → (after.1 && str_eq c.key k) ≡ false
    no_flag other = ground (arith, other)

run-Tracks :
    (w L bw : ℕ) (k : String) (r : InMemory) (clock : ℕ) (cs : List Call) (log : List ℕ)
    → w ≤ minute
    → r.burst_window ≡ bw
    → InOrder clock cs
    → All (λ c. c.key ≡ k → Guards bw w L c) cs
    → Tracks w L clock log (requests_of r k)
    → Tracks w L (end_time clock cs) (run k r cs log).1 (requests_of (run k r cs log).0 k)
unfolding run
run-Tracks w L bw k r clock [] log short e o g held = held
run-Tracks w L bw k r clock (c ∷ cs) log short e o g held =
    run-Tracks w L bw k (allow r c.now c.key c.config).0 c.now cs _ short
      (allow-burst_window r c.now c.key c.config ∙ e) o.1 g.1
      (Tracks-allow w L bw k r c clock log short e o.0 g.0 held)

abbrev pub ten_seconds : ℕ
ten_seconds = 10 * second

-- `InMemoryRateLimiter`: take any calls, for any keys, with a clock that does not go back, where
-- each call for `k` brings limits that are positive and at most `rpm` and `burst`. Then at any time
-- from the last call on, at most `rpm` requests of `k` were accepted in the minute before it and at
-- most `burst` in the ten seconds before it.
pub accepted_in_window_bounded :
    (k : String) (rpm burst clock : ℕ) (cs : List Call)
    → InOrder clock cs
    → All
        (λ c.
          c.key ≡ k
          → (0 < c.config.requests_per_minute)
            × (c.config.requests_per_minute ≤ rpm)
            × (0 < c.config.burst)
            × (c.config.burst ≤ burst))
        cs
    → (t : ℕ) → end_time clock cs ≤ t
    → (count_if (within minute t) (run k create_local cs []).1 ≤ rpm)
      × (count_if (within ten_seconds t) (run k create_local cs []).1 ≤ burst)
accepted_in_window_bounded k rpm burst clock cs o limits t l = (
  (run-Tracks minute rpm ten_seconds k create_local clock cs [] (omega arith) made o
      (All-map _ _ cs
        (λ c g e.
          (let q = g e in (q.0, λ s room calm. omega (arith, count_if-le (within minute c.now) s))))
        limits)
      (empty minute rpm) t l).1,
  (run-Tracks ten_seconds burst ten_seconds k create_local clock cs [] (omega arith) made o
      (All-map _ _ cs (λ c g e. (let q = g e in (q.0, λ s room calm. omega (arith, calm q.2))))
        limits)
      (empty ten_seconds burst) t l).1,
)
  where
    made : create_local.burst_window ≡ ten_seconds
    made = unfold create_local in refl

    nothing : requests_of create_local k ≡ []
    nothing = unfold requests_of create_local find in refl

    empty : (w L : ℕ) → Tracks w L clock [] (requests_of create_local k)
    empty w L t l = rw nothing (refl, omega arith)
