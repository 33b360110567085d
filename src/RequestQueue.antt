-- ===== src/RequestQueue.antt =====
-- The queue of requests that arrive before the router is connected:
-- services/router/internal/router/request_queue.go. `Enqueue` parses the request only to log it,
-- which is left out. Contexts and errors are parameters.
pub mod Accounting
mod Examples
use mcp_bridge.Prelude.{
  ℕ, ◌+◌, Bool, true, false, Option, none, some, List, [], ◌∷◌, ◌++◌, leb, ◌==◌, if◌then◌else◌,
  length,
}

-- A `chan error` with room for one error.
pub record Channel {ℓ} (E : Type ℓ) : Type ℓ where
  pub buffer : Option E
  pub closed : Bool

unfoldable pub new_channel {ℓ} : {E : Type ℓ} → Channel E
new_channel = record { buffer = none; closed = false }

-- `select { case ch <- err: default: }` and `close(ch)`; `none` is Go's panic on a closed channel.
unfoldable pub send_and_close {ℓ} : {E : Type ℓ} → Channel E → E → Option (Channel E)
send_and_close ch e =
    if ch.closed
    then none
    else some
        (record { buffer = elim ch.buffer [ none ↦ some e | some e' ↦ some e' ]; closed = true })

module _ {ℓ κ} (C : Type ℓ) (E : Type κ) where
  pub record QueuedRequest : Type (ℓ ⊔ κ) where
    pub data_bytes : List ℕ
    pub timestamp : ℕ
    pub context : C
    pub response : Channel E

  pub record RequestQueue : Type (ℓ ⊔ κ) where
    pub queue : List QueuedRequest
    pub max_size : ℕ
    pub total_queued : ℕ
    pub total_dropped : ℕ
    pub total_processed : ℕ

  -- A size of 0 or below is 0 here.
  unfoldable pub new_request_queue : ℕ → RequestQueue
  new_request_queue max_size = record {
    queue = [];
    max_size = if max_size == 0 then 100 else max_size;
    total_queued = 0;
    total_dropped = 0;
    total_processed = 0;
  }

  -- `none` for the error of a full queue.
  unfoldable pub enqueue : RequestQueue → List ℕ → C → ℕ → RequestQueue × Option (Channel E)
  unfolding new_channel
  enqueue rq data_bytes context now =
      if leb rq.max_size (length rq.queue)
      then (record rq { total_dropped = rq.total_dropped + 1 }, none)
      else (
        record rq {
          queue =
              rq.queue
              ++ record {
                data_bytes = data_bytes;
                timestamp = now;
                context = context;
                response = new_channel;
              }
                ∷ [];
          total_queued = rq.total_queued + 1;
        },
        some new_channel,
      )

  unfoldable pub dequeue_all : RequestQueue → RequestQueue × List QueuedRequest
  dequeue_all rq = if length rq.queue == 0 then (rq, []) else (
    record rq { queue = []; total_processed = rq.total_processed + length rq.queue },
    rq.queue,
  )

  -- The loop of `Clear`; `none` is a panic.
  unfoldable pub notify : List QueuedRequest → E → Option (List QueuedRequest)
  unfolding send_and_close
  notify [] e = some []
  notify (qr ∷ qrs) e =
      let rest = notify qrs e in
      elim (send_and_close qr.response e) [
        | none ↦ none
        | some ch ↦ elim rest [
          | none ↦ none
          | some qrs' ↦ some (record qr { response = ch } ∷ qrs')
        ]
      ]

  -- `Clear`, with the requests as they are after it.
  unfoldable pub clear : RequestQueue → E → Option (RequestQueue × List QueuedRequest)
  unfolding notify
  clear rq e = if length rq.queue == 0 then some (rq, []) else (elim (notify rq.queue e) [
    | none ↦ none
    | some qrs ↦
        some (record rq { queue = []; total_dropped = rq.total_dropped + length rq.queue }, qrs)
  ])

  unfoldable pub size : RequestQueue → ℕ
  size rq = length rq.queue

  unfoldable pub get_metrics : RequestQueue → ℕ × ℕ × ℕ
  get_metrics rq = (rq.total_queued, rq.total_dropped, rq.total_processed)

  unfoldable pub is_empty : RequestQueue → Bool
  is_empty rq = length rq.queue == 0

  unfoldable pub is_full : RequestQueue → Bool
  is_full rq = leb rq.max_size (length rq.queue)
