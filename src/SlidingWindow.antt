-- ===== src/SlidingWindow.antt =====
-- `SlidingWindowLimiter` of services/router/internal/ratelimit/ratelimit.go. `Allow` reads the
-- clock once, as `now`; times are nanoseconds and a maximum of 0 or below is 0.
pub mod Refinement
pub mod Waiting
mod Examples
use mcp_bridge.Prelude.{
  ℕ, ◌+◌, Bool, true, false, List, [], ◌∷◌, ◌++◌, ltb, leb, ◌==◌, if◌then◌else◌, keep, count_if,
}
use mcp_bridge.RateLimit.Window.{within}

pub record SlidingWindow : Type 0 where
  pub window_size : ℕ
  pub max_events : ℕ
  pub events : List ℕ
  pub cleanup_at : ℕ

unfoldable pub new_sliding_window : ℕ → ℕ → ℕ → SlidingWindow
new_sliding_window window_size max_events now = record {
  window_size = window_size;
  max_events = max_events;
  events = [];
  cleanup_at = now + window_size;
}

unfoldable pub cleanup : SlidingWindow → ℕ → SlidingWindow
cleanup l now = record l { events = keep (within l.window_size now) l.events }

-- The periodic clean-up in `Allow`.
unfoldable pub clean_when_due : SlidingWindow → ℕ → SlidingWindow
unfolding cleanup
clean_when_due l now =
    if ltb l.cleanup_at now then record (cleanup l now) { cleanup_at = now + l.window_size } else l

-- `Allow` after the clean-up.
unfoldable pub admit : SlidingWindow → ℕ → SlidingWindow × Bool
admit l now =
    if leb l.max_events (count_if (within l.window_size now) l.events)
    then (l, false)
    else (record l { events = l.events ++ now ∷ [] }, true)

-- `Allow`; false is its error.
unfoldable pub allow : SlidingWindow → ℕ → SlidingWindow × Bool
allow l now = if l.max_events == 0 then (l, false) else admit (clean_when_due l now) now
