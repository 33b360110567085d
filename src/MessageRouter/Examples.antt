-- ===== src/MessageRouter/Examples.antt =====
-- Requests in flight at the same time.
use mathlib.Core.Bool.{false≢true}
use mcp_bridge.Prelude.Int.{pos}
use mcp_bridge.MessageRouter.Direct.{
  FallbackConfig, Attempt, client_error, response_error, process_stdin_message_direct,
  determine_routing_target, extract_server_url, text, other_value,
}
use mcp_bridge.MessageRouter.Retries.{Dispatched, request-Dispatched}
use mcp_bridge.Prelude.{
  ℕ, zero, suc, Bool, true, false, ◌≡◌, ◌≢◌, refl, eq_iff, none, some, List, [], ◌∷◌, String,
}
use mcp_bridge.MessageRouter.Correlation.{
  scalar, Event, submit, sent_ok, send_failed, wake, timed_out, response, start, step, run,
}
use mcp_bridge.MessageRouter.Answers.{AreAllowed, Arrives, run-start-Arrives}

abbrev events : List Event
events =
    submit (scalar "1")
    ∷ submit (scalar "2")
    ∷ sent_ok 1
    ∷ sent_ok 0
    ∷ response (scalar "2") 22
    ∷ response (scalar "9") 99
    ∷ wake 1
    ∷ submit (scalar "2")
    ∷ send_failed 2
    ∷ timed_out 0
    ∷ response (scalar "1") 11
    ∷ []

two_is_not_one : ◌≢◌ {A = String} "2" "1"
two_is_not_one e = false≢true ((eq_iff "2" "1").1 e)

allowed : AreAllowed start events
unfolding start step
allowed = (
  tt,
  (
    (two_is_not_one, tt),
    (tt, (tt, (tt, (tt, (tt, ((two_is_not_one, tt), (tt, (tt, (tt, tt))))))))),
  ),
)

run-start-Arrives_example : Arrives start events (run start events)
run-start-Arrives_example = run-start-Arrives events allowed

abbrev retry_config : FallbackConfig
retry_config = record {
  enabled = true;
  max_retries = pos 2;
  gateway_only_methods = "initialize" ∷ [];
  direct_only_methods = "fs/read" ∷ [];
}

-- The first attempt times out and the second has an error that is not retried.
abbrev attempts : ℕ → Attempt
attempts zero = client_error "Dial TCP: i/o Timeout"
attempts (suc k) = response_error "failed to marshal"

abbrev never : ℕ → Bool
never k = false

falls_back :
    process_stdin_message_direct attempts never true false retry_config "fs/read"
    ≡ record { direct_attempts = 2; gateway_tried = true; error = none }
unfolding process_stdin_message_direct
falls_back = refl

urls :
    (extract_server_url (some (("endpoint", text "http://a") ∷ ("server_url", other_value) ∷ []))
      ≡ "http://a")
    × (extract_server_url (some (("target_url", text "") ∷ [])) ≡ "http://localhost:8080/mcp")
unfolding extract_server_url
urls = (refl, refl)

request-Dispatched_example :
    Dispatched attempts never 2
      (determine_routing_target true false retry_config "fs/read")
      retry_config
      (process_stdin_message_direct attempts never true false retry_config "fs/read")
request-Dispatched_example =
    request-Dispatched attempts never true false retry_config "fs/read" 2 refl
