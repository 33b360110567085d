-- ===== src/RateLimit/FaultTolerant.antt =====
-- `RedisRateLimiterWithCircuitBreaker` of redis_circuit.go: the Redis limiter behind the circuit
-- breaker, with the in-memory limiter to fall back on. Other goroutines may do anything to the
-- breaker between the parts of one `Allow`, which reads the clock once for Redis and the fallback.
use mathlib.Core.Path.{ap₂}
use mcp_bridge.Prelude.{
  ℕ, ◌≡◌, refl, ap, ◌∙◌, ◌⊎◌, inl, inr, Bool, true, false, none, List, [], ◌∷◌, ◌==◌, arith,
  if◌then◌else◌, String, Result, ok, err, Bool-cases, ◌*◌,
}
use mcp_bridge.Circuit.{
  CircuitBreaker, CallResult, returned, new_circuit_breaker, rejected, is_open, reset,
  record_outcome,
}
use mcp_bridge.RateLimit.{RateLimitConfig, second}
use mcp_bridge.RateLimit.Local
use mcp_bridge.RateLimit.Local.{InMemory, create_local}
use mcp_bridge.RateLimit.Local.Bounds.{Call}
use mcp_bridge.RateLimit.Redis
use mcp_bridge.RateLimit.Redis.{Redis, RedisKey, LimitError, rate_check_failed}

-- What other goroutines do to the breaker during one `Allow`: between `IsOpen` and `Call`, and
-- between the two critical sections of `Call`, and the two readings of the clock in its second one.
pub record Others : Type 0 where
  pub before_call : CircuitBreaker → CircuitBreaker
  pub in_call : CircuitBreaker → CircuitBreaker
  pub now : ℕ
  pub later : ℕ

module _ (R : Redis) where
  open R use {Conn}

  pub record FaultTolerant : Type 0 where
    pub conn : Conn
    pub breaker : CircuitBreaker
    pub fallback : InMemory

  unfoldable pub create_fault_tolerant : Conn → ℕ → FaultTolerant
  create_fault_tolerant conn now = record {
    conn = conn;
    breaker = new_circuit_breaker 5 3 (30 * second) now;
    fallback = create_local;
  }

  -- The fallback's answer, in the state that the breaker and Redis were left in.
  fall_back : FaultTolerant → ℕ → String → RateLimitConfig → FaultTolerant × Result LimitError Bool
  fall_back s now key config =
      let (l, allowed) = Local.allow s.fallback now key config in
      (record s { fallback = l }, ok allowed)

  is_err : Result LimitError Bool → Bool
  is_err (ok b) = false
  is_err (err e) = true

  -- What follows `circuitBreaker.Call`, on its result and on what the limiter returned in it.
  settle :
      FaultTolerant
      → CallResult
      → Result LimitError Bool
      → ℕ
      → String
      → RateLimitConfig
      → FaultTolerant × Result LimitError Bool
  unfolding fall_back
  settle s (returned false) (ok b) now key config = (s, ok b)
  settle s _ _ now key config = fall_back s now key config

  -- `circuitBreaker.Call` around the limiter and what follows it; the limiter is not asked when the
  -- breaker has been opened since `IsOpen` was asked, and `allowed` keeps its zero value.
  unfoldable pub call_redis :
      FaultTolerant → Others → ℕ → String → RateLimitConfig → FaultTolerant × Result LimitError Bool
  unfolding fall_back is_err settle
  call_redis s o now key config =
      if is_open s.breaker
      then settle s rejected (ok false) now key config
      else (let (conn', r) = Redis.allow R s.conn now key config in
          settle
            (record s {
              conn = conn';
              breaker = record_outcome (o.in_call s.breaker) (is_err r) o.now o.later;
            })
            (returned (is_err r)) r now key config)

  unfoldable pub allow :
      FaultTolerant → Others → ℕ → String → RateLimitConfig → FaultTolerant × Result LimitError Bool
  unfolding fall_back
  allow s o now key config =
      if is_open s.breaker
      then fall_back s now key config
      else call_redis (record s { breaker = o.before_call s.breaker }) o now key config

  unfoldable pub reset_circuit_breaker : FaultTolerant → ℕ → FaultTolerant
  reset_circuit_breaker s now = record s { breaker = reset s.breaker now }

  -- The answers to a history of calls, and what the in-memory limiter alone would answer.
  -- The answers to a history of calls, each with what others do to the breaker during it.
  unfoldable pub answers : FaultTolerant → List (Call × Others) → List (Result LimitError Bool)
  answers s [] = []
  answers s ((c, o) ∷ cs) = let (s', r) = allow s o c.now c.key c.config in r ∷ answers s' cs

  -- Every reply of Redis is an error.
  abbrev pub IsDown : Type 0
  IsDown = (conn : Conn) (k : RedisKey) (ttl : ℕ) → (R.incr_expire conn k ttl).1 ≡ none

-- The in-memory limiter by itself, its answers as `(bool, nil)`.
unfoldable pub local_answers : InMemory → List (Call × Others) → List (Result LimitError Bool)
local_answers l [] = []
local_answers l ((c, o) ∷ cs) =
    let (l', allowed) = Local.allow l c.now c.key c.config in ok allowed ∷ local_answers l' cs

unlimited :
    (l : InMemory) (now : ℕ) (key : String) (config : RateLimitConfig)
    → config.requests_per_minute ≡ 0
    → Local.allow l now key config ≡ (l, true)
unfolding Local.allow
unlimited l now key config free = rw free refl

module _ (R : Redis) (s : FaultTolerant R) (o : Others) (now : ℕ) (key : String)
    (config : RateLimitConfig) where
  abbrev local : InMemory × Bool
  local = Local.allow s.fallback now key config

  -- The answer, and the in-memory limiter afterwards.
  abbrev observed : FaultTolerant R × Result LimitError Bool → InMemory × Result LimitError Bool
  observed r = (r.0.fallback, r.1)

  -- Redis gave this answer, which stands, or the in-memory limiter answered.
  abbrev Answered : FaultTolerant R × Result LimitError Bool → Result LimitError Bool → Type 0
  Answered r asked =
      (observed r ≡ (local.0, ok local.1))
      ⊎ ((b : Bool) × (asked ≡ ok b) × (observed r ≡ (s.fallback, ok b)))

  settle-Answered :
      (c : R.Conn) (cb : CircuitBreaker) (v : Result LimitError Bool)
      → Answered
          (settle R (record s { conn = c; breaker = cb }) (returned (is_err R v)) v now key config)
          v
  unfolding settle is_err fall_back
  settle-Answered c cb (ok b) = inr (b, refl, refl)
  settle-Answered c cb (err e) = inl refl

  call_redis-Answered :
      (cb : CircuitBreaker)
      → Answered
          (call_redis R (record s { breaker = cb }) o now key config)
          (Redis.allow R s.conn now key config).1
  unfolding settle fall_back
  call_redis-Answered cb = elim (Bool-cases (is_open cb)) [
    | inl shut ↦ inl (unfold call_redis in rw shut refl)
    | inr admitted ↦
        unfold call_redis in
        rw admitted (settle-Answered _ _ (Redis.allow R s.conn now key config).1)
  ]

  allow-Answered : Answered (allow R s o now key config) (Redis.allow R s.conn now key config).1
  unfolding fall_back
  allow-Answered = elim (Bool-cases (is_open s.breaker)) [
    | inl shut ↦ inl (unfold allow in rw shut refl)
    | inr admitted ↦ unfold allow in rw admitted (call_redis-Answered (o.before_call s.breaker))
  ]

module _ (R : Redis) (down : IsDown R) where
  down_asked :
      (conn : R.Conn) (now : ℕ) (key : String) (config : RateLimitConfig)
      → ((config.requests_per_minute ≡ 0) × ((Redis.allow R conn now key config).1 ≡ ok true))
        ⊎ ((Redis.allow R conn now key config).1 ≡ err rate_check_failed)
  down_asked conn now key config = elim (Bool-cases (config.requests_per_minute == 0)) [
    | inl free ↦ inl (ground arith, unfold Redis.allow in rw free refl)
    | inr limited ↦
        inr (unfold Redis.allow Redis.check_rate_limit in rw limited (rw (down conn _ _) refl))
  ]

  -- One call during an outage answers and counts as the in-memory limiter does.
  down_step :
      (s : FaultTolerant R) (o : Others) (now : ℕ) (key : String) (config : RateLimitConfig)
      → let l = Local.allow s.fallback now key config in
        observed R s o now key config (allow R s o now key config) ≡ (l.0, ok l.1)
  down_step s o now key config = elim (allow-Answered R s o now key config) [
    | inl e ↦ e
    | inr (b, asked, e) ↦ elim (down_asked s.conn now key config) [
      | inl (free, q) ↦ ground (arith, e, asked, q, unlimited s.fallback now key config free)
      | inr q ↦ ground (arith, asked, q)
    ]
  ]

  -- While Redis is down the answers to any history of calls are those of the in-memory limiter,
  -- whatever the state of the breaker and whatever other goroutines do to it during the calls.
  pub outage-answers :
      (s : FaultTolerant R) (cs : List (Call × Others))
      → answers R s cs ≡ local_answers s.fallback cs
  unfolding answers local_answers
  outage-answers s [] = refl
  outage-answers s ((c, o) ∷ cs) =
      let e = down_step s o c.now c.key c.config in
      ap₂ (λ x xs. x ∷ xs) (ap (λ r. r.1) e)
        (outage-answers (allow R s o c.now c.key c.config).0 cs ∙ ap (λ r. local_answers r.0 cs) e)
