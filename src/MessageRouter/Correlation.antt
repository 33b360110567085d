-- ===== src/MessageRouter/Correlation.antt =====
-- Requests to the gateway and their answers: processGatewayRequest with its goroutine, and
-- routeResponse, while the router is not stopped. Channels have numbers, and metrics and logs are
-- left out.
use mcp_bridge.Prelude.{
  ℕ, ◌+◌, ◌==◌, Bool, true, false, ◌&&◌, Option, none, some, List, [], ◌∷◌, if◌then◌else◌, String,
  StrMap, find, put, remove,
}
use mcp_bridge.RequestQueue.{Channel, new_channel, send_and_close}

-- A JSON identifier, an `interface{}` in Go: a scalar by the text that tells scalars apart, or an
-- object or array, which `sync.Map` cannot take for a key.
pub data JsonId : Type 0 where
  scalar : String → JsonId
  composite : JsonId

pub record Response : Type 0 where
  pub id : String
  pub body : ℕ

-- The goroutine of a request: its identifier, its channel, and whether `SendRequest` has returned.
pub record Task : Type 0 where
  pub id : String
  pub channel : ℕ
  pub sent : Bool

-- A line on stdout: what came from the channel, none for nil, which is written as `null`, or an
-- error response.
pub data Line : Type 0 where
  answer : Option Response → Line
  failure : Line

-- `pending_reqs` maps identifiers to channels; `stdout` has, with each line, the identifier of the
-- request whose goroutine wrote it, the last line first.
pub record Router : Type 0 where
  pub pending_reqs : StrMap ℕ
  pub channels : ℕ → Channel Response
  pub next_channel : ℕ
  pub tasks : List Task
  pub stdout : List (String × Line)

-- The events by the channel of the goroutine. `wake` is `<-respChan` with a line that goes through,
-- `wake_blocked` one whose line does not go through in time.
pub data Event : Type 0 where
  submit : JsonId → Event
  sent_ok send_failed wake wake_blocked timed_out : ℕ → Event
  response : JsonId → ℕ → Event

unfoldable pub start : Router
unfolding new_channel
start = record {
  pending_reqs = [];
  channels = λ c. new_channel;
  next_channel = 0;
  tasks = [];
  stdout = [];
}

abbrev pub set_channel : (ℕ → Channel Response) → ℕ → Channel Response → ℕ → Channel Response
set_channel channels c ch d = if c == d then ch else channels d

-- `close(ch)`; none for the panic on a closed channel.
unfoldable pub close_channel : Channel Response → Option (Channel Response)
close_channel ch = if ch.closed then none else some (record ch { closed = true })

unfoldable pub with_channel : Router → String → ℕ → Option (Channel Response) → Option Router
with_channel r id c none = none
with_channel r id c (some ch) =
    some
      (record r { pending_reqs = remove id r.pending_reqs; channels = set_channel r.channels c ch })

-- `LoadAndDelete` and `close` of what is found.
unfoldable pub cleanup : Router → String → Option Router
unfolding with_channel close_channel find remove
cleanup r id = elim (find id r.pending_reqs) [
  | none ↦ some r
  | some c ↦ with_channel r id c (close_channel (r.channels c))
]

unfoldable pub deliver_response : Router → Response → Option Router
unfolding with_channel send_and_close find remove
deliver_response r resp = elim (find resp.id r.pending_reqs) [
  | none ↦ some r
  | some c ↦ with_channel r resp.id c (send_and_close (r.channels c) resp)
]

-- `routeResponse`; looking up an object or array panics.
unfoldable pub route_response : Router → JsonId → ℕ → Option Router
unfolding deliver_response
route_response r (scalar id) body = deliver_response r (record { id = id; body = body })
route_response r composite body = none

unfoldable pub take_task : ℕ → List Task → Option (Task × List Task)
take_task c [] = none
take_task c (t ∷ ts) =
    let rest = take_task c ts in
    if t.channel == c
    then some (t, ts)
    else (elim rest [ none ↦ none | some (found, others) ↦ some (found, t ∷ others) ])

-- The request is stored and its goroutine begins.
unfoldable pub store_request : Router → String → Router
unfolding put new_channel
store_request r id = record r {
  pending_reqs = put id r.next_channel r.pending_reqs;
  channels = set_channel r.channels r.next_channel new_channel;
  next_channel = r.next_channel + 1;
  tasks = record { id = id; channel = r.next_channel; sent = false } ∷ r.tasks;
}

-- `processGatewayRequest`; storing under an object or array panics.
unfoldable pub process_gateway_request : Router → JsonId → Option Router
unfolding store_request
process_gateway_request r (scalar id) = some (store_request r id)
process_gateway_request r composite = none

-- The goroutine cleans up, writes an error response and ends.
unfoldable pub fail : Router → Task → List Task → Option Router
unfolding cleanup
fail r t others = elim (cleanup r t.id) [
  | none ↦ none
  | some r' ↦ some (record r' { tasks = others; stdout = (t.id, failure) ∷ r'.stdout })
]

-- Something can be received from the channel: a response, or nil when it is closed and empty.
abbrev pub is_ready : Channel Response → Bool
is_ready ch = elim ch.buffer [ none ↦ ch.closed | some resp ↦ true ]

-- What the goroutine of `t` does on an event; nothing if it does not wait for it.
unfoldable pub proceed : Router → Event → Task → List Task → Option Router
unfolding fail
proceed r (sent_ok c) t others = some (record r { tasks = record t { sent = true } ∷ others })
proceed r (send_failed c) t others = if t.sent then some r else fail r t others
proceed r (wake c) t others =
    if t.sent && is_ready (r.channels t.channel)
    then some (record r {
      tasks = others;
      stdout = (t.id, answer (r.channels t.channel).buffer) ∷ r.stdout;
    })
    else some r
proceed r (wake_blocked c) t others =
    if t.sent && is_ready (r.channels t.channel) then fail r t others else some r
proceed r (timed_out c) t others = if t.sent then fail r t others else some r
proceed r (submit id) t others = some r
proceed r (response id body) t others = some r

unfoldable pub resume : Router → Event → Option (Task × List Task) → Option Router
unfolding proceed
resume r e none = some r
resume r e (some (t, others)) = proceed r e t others

-- One event; none for a panic.
unfoldable pub step : Router → Event → Option Router
unfolding process_gateway_request route_response take_task resume
step r (submit id) = process_gateway_request r id
step r (response id body) = route_response r id body
step r (sent_ok c) = resume r (sent_ok c) (take_task c r.tasks)
step r (send_failed c) = resume r (send_failed c) (take_task c r.tasks)
step r (wake c) = resume r (wake c) (take_task c r.tasks)
step r (wake_blocked c) = resume r (wake_blocked c) (take_task c r.tasks)
step r (timed_out c) = resume r (timed_out c) (take_task c r.tasks)

unfoldable pub run : Router → List Event → Option Router
unfolding step
run r [] = some r
run r (e ∷ es) = elim (step r e) [ none ↦ none | some r' ↦ run r' es ]
