-- ===== src/RateLimit/Redis.antt =====
-- `RedisRateLimiter` of ratelimit.go, over any Redis client.
use mcp_bridge.Prelude.{
  ℕ, ◌+◌, ◌*◌, ◌/◌, Bool, true, false, Option, none, some, ◌==◌, ltb, if◌then◌else◌, String, Result,
  ok, err,
}
use mcp_bridge.RateLimit.{RateLimitConfig, second, minute}

-- The two families of keys, by the client's key and the number of the window (the program prints
-- them as "ratelimit:<key>:<n>" and "ratelimit:burst:<key>:<n>").
pub data RedisKey : Type 0 where
  rate_key burst_key : String → ℕ → RedisKey

-- The Redis client: what a pipeline of INCR and EXPIRE does to the connection, and INCR's reply if
-- the pipeline succeeds.
pub record Redis : Type 1 where
  pub Conn : Type 0
  pub incr_expire : Conn → RedisKey → ℕ → Conn × Option ℕ

pub data LimitError : Type 0 where
  rate_check_failed burst_check_failed : LimitError

module _ (R : Redis) where
  open R use {Conn, incr_expire}

  -- `checkRateLimit`; the window's number is `now.Unix()/60`.
  unfoldable pub check_rate_limit : Conn → ℕ → String → Conn × Option ℕ
  check_rate_limit conn now key =
      incr_expire conn (rate_key key (now / second / 60)) (minute + second)

  burst_verdict : Option ℕ → ℕ → Result LimitError Bool
  burst_verdict none burst = err burst_check_failed
  burst_verdict (some count) burst = if ltb burst count then ok false else ok true

  unfoldable pub check_burst_limit : Conn → ℕ → String → ℕ → Conn × Result LimitError Bool
  unfolding burst_verdict
  check_burst_limit conn now key burst =
      let (conn', reply) =
        incr_expire conn (burst_key key (now / second / 10)) (10 * second + second) in
      (conn', burst_verdict reply burst)

  -- `Allow` on the reply for the minute.
  judge : Conn → Option ℕ → ℕ → String → RateLimitConfig → Conn × Result LimitError Bool
  judge conn none now key config = (conn, err rate_check_failed)
  judge conn (some count) now key config =
      if ltb config.requests_per_minute count
      then (conn, ok false)
      else if ltb 0 config.burst
      then check_burst_limit conn now key config.burst
      else (conn, ok true)

  unfoldable pub allow : Conn → ℕ → String → RateLimitConfig → Conn × Result LimitError Bool
  unfolding judge
  allow conn now key config =
      if config.requests_per_minute == 0
      then (conn, ok true)
      else (let (conn', reply) = check_rate_limit conn now key in judge conn' reply now key config)
