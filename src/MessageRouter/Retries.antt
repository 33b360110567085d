-- ===== src/MessageRouter/Retries.antt =====
-- How the direct attempts of a request end, and where the request goes then.
use mcp_bridge.Prelude.{
  ℕ, zero, suc, ◌+◌, ◌<◌, ◌≤◌, ◌≡◌, ◌⊎◌, inl, inr, refl, sym, ◌∙◌, subst, Bool, true, false, not,
  ◌&&◌, Option, none, some, arith, Bool-cases, if_cases, ltb, if◌then◌else◌, String,
}
use mcp_bridge.Prelude.Int.{pos}
use mcp_bridge.MessageRouter.Direct.{
  FallbackConfig, Attempt, process_direct_request, is_retryable_direct_error, canceled_error,
  Handled, attempt_from, attempt_direct_with_retries, fall_back, process_request_with_fallback,
  determine_routing_target, process_stdin_message_direct, rounds_of,
}

module _ (attempts : ℕ → Attempt) (canceled : ℕ → Bool) where
  -- Attempt `j` fails and is tried again.
  abbrev pub IsRetried : ℕ → Type 0
  IsRetried j =
      (e : String) × (process_direct_request (attempts j) ≡ some e)
      × (is_retryable_direct_error e ≡ true)

  -- How it ends at attempt `i`, the last allowed one being `n`.
  abbrev pub Stops : ℕ → ℕ → Option String → Type 0
  Stops n i r =
      ((process_direct_request (attempts i) ≡ none) × (r ≡ none))
      ⊎ ((e : String) × (process_direct_request (attempts i) ≡ some e)
          × (r ≡ some e)
          × ((is_retryable_direct_error e ≡ false) ⊎ (i ≡ n)))
      ⊎ ((i < n) × (canceled (suc i) ≡ true) × IsRetried i × (r ≡ some canceled_error))

  -- The attempts made are 0 to `i`, and all before `i` were retried.
  abbrev pub Ended : ℕ → ℕ × Option String → Type 0
  Ended n (k, r) = (i : ℕ) × (k ≡ suc i) × (i ≤ n) × ((j : ℕ) → j < i → IsRetried j) × Stops n i r

  -- The loop comes to an attempt with nothing decided.
  abbrev pub Comes : ℕ → ℕ → Option String → Type 0
  Comes rounds a last =
      ((j : ℕ) → j < a → IsRetried j)
      × ((a ≡ 0) ⊎ ((i : ℕ) × (a ≡ suc i) × (process_direct_request (attempts i) ≡ last)))

  before-suc :
      (a : ℕ) → ((j : ℕ) → j < a → IsRetried j) → IsRetried a → (j : ℕ) → j < a + 1 → IsRetried j
  before-suc a h here j lt = elim (Bool-cases (ltb j a)) [
    | inl less ↦ h j (ground (arith, less))
    | inr last ↦ subst IsRetried (ground (arith, last, lt)) here
  ]

  judged-Ended :
      (n rounds a : ℕ) (last : Option String)
      → suc rounds + a ≡ suc n
      → Comes (suc rounds) a last
      → ((e : String)
          → Comes rounds (a + 1) (some e)
          → Ended n (attempt_from attempts canceled rounds (a + 1) (some e)))
      → (o : Option String) → process_direct_request (attempts a) ≡ o
      → Ended n (elim o [
        | none ↦ (a + 1, none)
        | some e ↦ elim (is_retryable_direct_error e) [
          | true ↦ attempt_from attempts canceled rounds (a + 1) (some e)
          | false ↦ (a + 1, some e)
        ]
      ])
  judged-Ended n rounds a last sum (before, at) next none e =
      (a, omega arith, omega (arith, sum), before, inl (e, refl))
  judged-Ended n rounds a last sum (before, at) next (some m) e =
      go (is_retryable_direct_error m) refl
    where
      go :
          (b : Bool)
          → is_retryable_direct_error m ≡ b
          → Ended n (elim b [
            | true ↦ attempt_from attempts canceled rounds (a + 1) (some m)
            | false ↦ (a + 1, some m)
          ])
      go true eq = next m (before-suc a before (m, e, eq), inr (a, omega arith, e))
      go false eq = (a, omega arith, omega (arith, sum), before, inr (inl (m, e, refl, inl eq)))

  attempt_from-Ended :
      (n rounds a : ℕ) (last : Option String)
      → rounds + a ≡ suc n
      → Comes rounds a last
      → Ended n (attempt_from attempts canceled rounds a last)
  unfolding attempt_from
  attempt_from-Ended n zero a last sum (before, inl e) = absurd (omega (arith, e, sum))
  attempt_from-Ended n zero a last sum (before, inr (i, e, l)) =
      let (m, failed, _) = before i (omega (arith, e)) in
      (
        i,
        e,
        omega (arith, e, sum),
        (λ j lt. before j (omega (arith, lt, e))),
        inr (inl (m, failed, sym l ∙ failed, inr (omega (arith, e, sum)))),
      )
  attempt_from-Ended n (suc rounds) a last sum (before, at) =
      if_cases (Ended n) (ltb 0 a && canceled a) _ _
        (λ stop. elim at [
          | inl e ↦ absurd (ground (arith, stop, e))
          | inr (i, e, l) ↦ (
            i,
            e,
            omega (arith, e, sum),
            (λ j lt. before j (omega (arith, lt, e))),
            inr (
                inr (
                  omega (arith, e, sum),
                  subst (λ k. canceled k ≡ true) e (ground (arith, stop)),
                  before i (omega (arith, e)),
                  refl,
                )),
          )
        ])
        (λ _.
          judged-Ended n rounds a last sum (before, at)
            (λ e c. attempt_from-Ended n rounds (a + 1) (some e) (omega (arith, sum)) c)
            (process_direct_request (attempts a)) refl)

  -- Where the request goes, and what the caller is told.
  abbrev pub Dispatched : ℕ → Bool → FallbackConfig → Handled → Type 0
  Dispatched n target fallback h =
      ((target ≡ false) × (h ≡ record { direct_attempts = 0; gateway_tried = true; error = none }))
      ⊎ ((target ≡ true)
          × (fallback.enabled ≡ false)
          × (h ≡ record {
            direct_attempts = 1;
            gateway_tried = false;
            error = process_direct_request (attempts 0);
          }))
      ⊎ ((target ≡ true)
          × (fallback.enabled ≡ true)
          × (h.error ≡ none)
          × ((r : Option String) × Ended n (h.direct_attempts, r)
              × (((r ≡ none) × (h.gateway_tried ≡ false))
                  ⊎ ((e : String) × (r ≡ some e) × (h.gateway_tried ≡ true)))))

  retried-Dispatched :
      (n : ℕ) (fallback : FallbackConfig) (r : ℕ × Option String)
      → fallback.enabled ≡ true
      → Ended n r
      → Dispatched n true fallback (fall_back r)
  unfolding fall_back
  retried-Dispatched n fallback (k, none) on h =
      inr (inr (refl, on, refl, (none, h, inl (refl, refl))))
  retried-Dispatched n fallback (k, some e) on h =
      inr (inr (refl, on, refl, (some e, h, inr (e, refl, refl))))

  routed-Dispatched :
      (n : ℕ) (fallback : FallbackConfig)
      → Ended n (attempt_direct_with_retries attempts canceled fallback)
      → (target : Bool)
      → Dispatched n target fallback (
          if target
          then process_request_with_fallback attempts canceled fallback
          else record { direct_attempts = 0; gateway_tried = true; error = none })
  unfolding process_request_with_fallback
  routed-Dispatched n fallback ended false = inl (refl, refl)
  routed-Dispatched n fallback ended true =
      if_cases (Dispatched n true fallback) (not fallback.enabled) _ _
        (λ off. inr (inl (refl, ground (arith, off), refl)))
        (λ on.
          retried-Dispatched n fallback (attempt_direct_with_retries attempts canceled fallback)
            (ground (arith, on)) ended)

  -- With MaxRetries of 0 or more, for any outcomes of the direct attempts and of the waits between
  -- them: a request whose target is the gateway goes there and no direct attempt is made; with
  -- fallback disabled there is one direct attempt, whose error is returned, and the gateway is not
  -- tried; with fallback enabled no error is returned, at most MaxRetries + 1 attempts are made,
  -- each after one that failed with an error worth retrying, and the gateway is tried exactly if
  -- they end in an error: the last one's if it is not worth retrying or the last allowed, or that
  -- of a context done during a wait.
  pub request-Dispatched :
      (has_manager direct_mode : Bool) (fallback : FallbackConfig) (method : String) (n : ℕ)
      → fallback.max_retries ≡ pos n
      → Dispatched n
          (determine_routing_target has_manager direct_mode fallback method)
          fallback
          (process_stdin_message_direct attempts canceled has_manager direct_mode fallback method)
  unfolding process_stdin_message_direct attempt_direct_with_retries rounds_of
  request-Dispatched has_manager direct_mode fallback method n e =
      let ended =
        attempt_from-Ended n (suc n) 0 none (omega arith)
          ((λ j lt. absurd (omega (arith, lt))), inl refl) in
      routed-Dispatched n fallback
        (subst (λ z. Ended n (attempt_from attempts canceled (rounds_of z) 0 none)) (sym e) ended)
        (determine_routing_target has_manager direct_mode fallback method)
