-- ===== src/MessageRouter/Direct.antt =====
-- Where a request goes: determineRoutingTarget, attemptDirectWithRetries, isRetryableDirectError,
-- processRequestWithFallback and extractServerURL of message_router.go. Errors are their messages,
-- texts are ASCII, and metrics and logs are left out. What `GetClient`, `SendRequest` and the
-- writing of the response come to in each attempt is a parameter, as is whether the context is done
-- while an attempt waits for its delay.
use mcp_bridge.Prelude.{
  ℕ, zero, suc, ◌+◌, Bool, true, false, not, ◌&&◌, ◌||◌, Option, none, some, List, [], ◌∷◌,
  if◌then◌else◌, ltb, String, str_eq, StrMap, find,
}
use mcp_bridge.Prelude.Int.{ℤ, pos, negsuc}
use mcp_bridge.Prelude.Text.{contains, ◌+str◌, to_lower}

pub record FallbackConfig : Type 0 where
  pub enabled : Bool
  pub max_retries : ℤ
  pub gateway_only_methods : List String
  pub direct_only_methods : List String

abbrev pub member : String → List String → Bool
member s [] = false
member s (t ∷ ts) = str_eq s t || member s ts

abbrev pub meta_methods : List String
meta_methods = "initialize" ∷ "initialized" ∷ []

abbrev pub server_methods : List String
server_methods =
    "tools/list" ∷ "tools/call" ∷ "resources/list" ∷ "resources/read" ∷ "prompts/list"
    ∷ "prompts/get" ∷ []

-- true for the direct connection. The first argument tells whether there is a direct manager, the
-- second is `IsDirectMode`.
unfoldable pub determine_routing_target : Bool → Bool → FallbackConfig → String → Bool
determine_routing_target has_manager direct_mode fallback method =
    if not has_manager
    then false
    else if member method fallback.gateway_only_methods
    then false
    else if member method fallback.direct_only_methods
    then true
    else if not direct_mode
    then false
    else if member method meta_methods
    then false
    else if member method server_methods
    then true
    else fallback.enabled

abbrev pub retryable_patterns : List String
retryable_patterns =
    "connection refused" ∷ "connection timeout" ∷ "connection reset" ∷ "no such host"
    ∷ "network unreachable" ∷ "host unreachable" ∷ "timeout" ∷ "context deadline exceeded"
    ∷ "failed to detect protocol" ∷ "failed to get direct client" ∷ "protocol detection failed"
    ∷ "no route to host" ∷ "connection aborted" ∷ []

unfoldable pub contains_any : String → List String → Bool
unfolding contains
contains_any s [] = false
contains_any s (p ∷ ps) = contains s p || contains_any s ps

-- For an error that is not nil.
unfoldable pub is_retryable_direct_error : String → Bool
unfolding contains_any to_lower contains
is_retryable_direct_error message =
    contains_any (to_lower message) retryable_patterns
    || contains message "direct"
    || contains message "connect"
    || contains message "dial"

-- One attempt.
pub data Attempt : Type 0 where
  client_error send_error response_error : String → Attempt
  answered : Attempt

unfoldable pub process_direct_request : Attempt → Option String
process_direct_request (client_error e) = some ("failed to get direct client: " +str e)
process_direct_request (send_error e) = some ("failed to send direct request: " +str e)
process_direct_request (response_error e) = some e
process_direct_request answered = none

pub record Handled : Type 0 where
  pub direct_attempts : ℕ
  pub gateway_tried : Bool
  pub error : Option String

abbrev pub canceled_error : String
canceled_error = "context canceled during retry"

unfoldable pub rounds_of : ℤ → ℕ
rounds_of (pos n) = suc n
rounds_of (negsuc n) = 0

-- The request goes to the gateway after an error; `processGatewayRequest` returns nil at once.
unfoldable pub fall_back : ℕ × Option String → Handled
fall_back (k, none) = record { direct_attempts = k; gateway_tried = false; error = none }
fall_back (k, some e) = record { direct_attempts = k; gateway_tried = true; error = none }

module _ (attempts : ℕ → Attempt) (canceled : ℕ → Bool) where
  -- The loop with the rounds left, the attempt, and `lastErr`: how many attempts were made, and the
  -- error.
  unfoldable pub attempt_from : ℕ → ℕ → Option String → ℕ × Option String
  unfolding process_direct_request is_retryable_direct_error
  attempt_from zero attempt last = (attempt, last)
  attempt_from (suc rounds) attempt last =
      if ltb 0 attempt && canceled attempt
      then (attempt, some canceled_error)
      else elim (process_direct_request (attempts attempt)) [
        | none ↦ (attempt + 1, none)
        | some e ↦ elim (is_retryable_direct_error e) [
          | true ↦ attempt_from rounds (attempt + 1) (some e)
          | false ↦ (attempt + 1, some e)
        ]
      ]

  unfoldable pub attempt_direct_with_retries : FallbackConfig → ℕ × Option String
  unfolding attempt_from rounds_of
  attempt_direct_with_retries fallback = attempt_from (rounds_of fallback.max_retries) 0 none

  unfoldable pub process_request_with_fallback : FallbackConfig → Handled
  unfolding attempt_direct_with_retries fall_back process_direct_request
  process_request_with_fallback fallback =
      if not fallback.enabled
      then record {
        direct_attempts = 1;
        gateway_tried = false;
        error = process_direct_request (attempts 0);
      }
      else fall_back (attempt_direct_with_retries fallback)

  -- `processStdinMessageDirect`, of a request that can be read.
  unfoldable pub process_stdin_message_direct : Bool → Bool → FallbackConfig → String → Handled
  unfolding determine_routing_target process_request_with_fallback
  process_stdin_message_direct has_manager direct_mode fallback method =
      if determine_routing_target has_manager direct_mode fallback method
      then process_request_with_fallback fallback
      else record { direct_attempts = 0; gateway_tried = true; error = none }

-- A value of the parameters.
pub data Value : Type 0 where
  text : String → Value
  other_value : Value

unfoldable pub try_extract_url : StrMap Value → String → String
unfolding find
try_extract_url params key = elim (find key params) [
  | none ↦ ""
  | some (text url) ↦ url
  | some other_value ↦ ""
]

unfoldable pub extract_url_from_params : StrMap Value → String
unfolding try_extract_url
extract_url_from_params params =
    if not (str_eq (try_extract_url params "server_url") "")
    then try_extract_url params "server_url"
    else if not (str_eq (try_extract_url params "target_url") "")
    then try_extract_url params "target_url"
    else try_extract_url params "endpoint"

-- `none` for parameters that are not an object.
unfoldable pub extract_server_url : Option (StrMap Value) → String
unfolding extract_url_from_params
extract_server_url none = "http://localhost:8080/mcp"
extract_server_url (some params) =
    if str_eq (extract_url_from_params params) ""
    then "http://localhost:8080/mcp"
    else extract_url_from_params params
