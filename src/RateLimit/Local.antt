-- ===== src/RateLimit/Local.antt =====
-- `InMemoryRateLimiter` of ratelimit.go.
pub mod Bounds
use mcp_bridge.Prelude.{
  ℕ, ◌+◌, ◌*◌, Bool, true, false, ◌&&◌, Option, none, some, List, [], ◌∷◌, ◌++◌, ◌==◌, ltb, leb,
  if◌then◌else◌, length, keep, count_if, String, StrMap, find, put, Result, ok,
}
use mcp_bridge.RateLimit.{RateLimitConfig, second, minute}
use mcp_bridge.RateLimit.Window.{within}

pub record InMemory : Type 0 where
  pub requests : StrMap (List ℕ)
  pub burst_window : ℕ

unfoldable pub create_local : InMemory
create_local = record { requests = []; burst_window = 10 * second }

unfoldable pub set_burst_window : InMemory → ℕ → InMemory
set_burst_window r duration = record r { burst_window = duration }

or_empty : Option (List ℕ) → List ℕ
or_empty none = []
or_empty (some xs) = xs

-- `r.requests[key]`
unfoldable pub requests_of : InMemory → String → List ℕ
unfolding or_empty
requests_of r key = or_empty (find key r.requests)

-- The entries of a key that is known lose what is a minute old.
unfoldable pub clean_up : InMemory → ℕ → String → InMemory
clean_up r now key = elim (find key r.requests) [
  | none ↦ r
  | some xs ↦ record r { requests = put key (keep (within minute now) xs) r.requests }
]

burst_exceeded : InMemory → ℕ → String → RateLimitConfig → Bool
burst_exceeded r now key config =
    ltb 0 config.burst
    && leb config.burst (count_if (within r.burst_window now) (requests_of r key))

-- `Allow` after the clean-up; it never returns an error.
unfoldable pub admit : InMemory → ℕ → String → RateLimitConfig → InMemory × Bool
unfolding burst_exceeded
admit r now key config =
    if leb config.requests_per_minute (length (requests_of r key))
    then (r, false)
    else if burst_exceeded r now key config
    then (r, false)
    else (record r { requests = put key (requests_of r key ++ now ∷ []) r.requests }, true)

unfoldable pub allow : InMemory → ℕ → String → RateLimitConfig → InMemory × Bool
allow r now key config =
    if config.requests_per_minute == 0 then (r, true) else admit (clean_up r now key) now key config
