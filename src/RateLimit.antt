-- ===== src/RateLimit.antt =====
-- The gateway's rate limiters: services/gateway/internal/ratelimit/ratelimit.go and
-- redis_circuit.go. Times are nanoseconds since an epoch before the process and come in as
-- arguments; limits of 0 or below are 0 here.
pub mod Window
pub mod Local
pub mod Redis
pub mod FaultTolerant
mod Examples
use mcp_bridge.Prelude.{ℕ, ◌*◌, ◌^◌}

-- `auth.RateLimitConfig`
pub record RateLimitConfig : Type 0 where
  pub requests_per_minute : ℕ
  pub burst : ℕ

abbrev pub second : ℕ
second = 10 ^ 9

abbrev pub minute : ℕ
minute = 60 * second
