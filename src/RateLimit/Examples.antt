-- ===== src/RateLimit/Examples.antt =====
-- The rate limiters at concrete inputs.
use mcp_bridge.Prelude.{
  ℕ, ◌≤◌, ◌<◌, ◌*◌, ◌≡◌, refl, none, List, [], ◌∷◌, arith, map, count_if, find, put,
}
use mcp_bridge.Circuit.{state_open}
use mcp_bridge.RateLimit.{RateLimitConfig, second, minute}
use mcp_bridge.RateLimit.Window.{within}
use mcp_bridge.RateLimit.Local
use mcp_bridge.RateLimit.Local.{InMemory, create_local}
use mcp_bridge.RateLimit.Local.Bounds.{Call, run, ten_seconds, accepted_in_window_bounded}
use mcp_bridge.RateLimit.Redis.{Redis}
use mcp_bridge.RateLimit.FaultTolerant.{
  Others, create_fault_tolerant, answers, local_answers, IsDown, outage-answers,
}

abbrev limits : RateLimitConfig
limits = record { requests_per_minute = 3; burst = 2 }

abbrev at : ℕ → Call
at t = record { now = t * second; key = "k"; config = limits }

abbrev calls : List Call
calls = at 100 ∷ at 101 ∷ at 102 ∷ at 120 ∷ at 121 ∷ []

-- The third is over the burst limit, the fifth over the limit for the minute.
calls_accepted : (run "k" create_local calls []).1 ≡ 100 * second ∷ 101 * second ∷ 120 * second ∷ []
unfolding run Local.allow Local.admit Local.requests_of find Local.clean_up create_local put
calls_accepted = refl

abbrev limits_hold : (0 < 3) × (3 ≤ 3) × (0 < 2) × (2 ≤ 2)
limits_hold = (omega arith, omega arith, omega arith, omega arith)

accepted_in_window_bounded_example :
    (count_if (within minute (121 * second)) (run "k" create_local calls []).1 ≤ 3)
    × (count_if (within ten_seconds (121 * second)) (run "k" create_local calls []).1 ≤ 2)
accepted_in_window_bounded_example =
    accepted_in_window_bounded "k" 3 2 0 calls
      (omega arith, (omega arith, (omega arith, (omega arith, (omega arith, tt)))))
      (
        (λ e. limits_hold),
        ((λ e. limits_hold), ((λ e. limits_hold), ((λ e. limits_hold), ((λ e. limits_hold), tt)))),
      )
      (121 * second) (omega arith)

-- A client that is cut off.
abbrev dead : Redis
dead = record { Conn = ℕ; incr_expire = λ conn k ttl. (conn, none) }

-- Another goroutine opens the breaker after `IsOpen` has been asked.
abbrev opening : Others
opening = record {
  before_call = λ cb. record cb { state = state_open };
  in_call = λ cb. cb;
  now = 0;
  later = 1;
}

abbrev history : List (Call × Others)
history = map (λ c. (c, opening)) calls

cut_off : IsDown dead
cut_off conn k ttl = refl

outage-answers_example :
    answers dead (create_fault_tolerant dead 0 0) history
    ≡ local_answers (create_fault_tolerant dead 0 0).fallback history
outage-answers_example = outage-answers dead cut_off (create_fault_tolerant dead 0 0) history
