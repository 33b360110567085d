-- ===== src/RequestQueue/Accounting.antt =====
-- What becomes of the requests offered to the queue, over any sequence of its operations.
use mathlib.Core.List.{append-nil, append_assoc}
use mcp_bridge.Prelude.{
  ℕ, ◌+◌, ◌≤◌, ◌<◌, ◌≡◌, refl, sym, ap, ◌∙◌, true, Option, none, some, List, [], ◌∷◌, ◌++◌, map,
  arith, ◌⊎◌, leb, length, All, Bool-cases, inl, inr, length-append, tests,
}
use mcp_bridge.RequestQueue.{
  Channel, new_channel, send_and_close, QueuedRequest, RequestQueue, new_request_queue, enqueue,
  dequeue_all, notify, clear,
}

module _ {ℓ κ} (C : Type ℓ) (E : Type κ) where
  -- One operation: a request with its context and the time, a take, or a clear with its error.
  pub data Op : Type (ℓ ⊔ κ) where
    offer : List ℕ → C → ℕ → Op
    take : Op
    drop : E → Op

  -- The queue, the number of requests offered, and, in order, those that got in and those that have
  -- left, taken or cleared.
  pub record History : Type (ℓ ⊔ κ) where
    pub rq : RequestQueue C E
    pub offered : ℕ
    pub accepted : List (QueuedRequest C E)
    pub left : List (QueuedRequest C E)

  abbrev request : List ℕ → C → ℕ → QueuedRequest C E
  request data_bytes context now = record {
    data_bytes = data_bytes;
    timestamp = now;
    context = context;
    response = new_channel;
  }

  abbrev offered_to : History → List ℕ → C → ℕ → RequestQueue C E × Option (Channel E) → History
  offered_to h d c now (rq, none) = record h { rq = rq; offered = h.offered + 1 }
  offered_to h d c now (rq, some ch) = record h {
    rq = rq;
    offered = h.offered + 1;
    accepted = h.accepted ++ request d c now ∷ [];
  }

  unfoldable pub step : History → Op → Option History
  step h (offer d c now) = some (offered_to h d c now (enqueue C E h.rq d c now))
  step h take =
      let (rq, taken) = dequeue_all C E h.rq in some (record h { rq = rq; left = h.left ++ taken })
  step h (drop e) = elim (clear C E h.rq e) [
    | none ↦ none
    | some (rq, _) ↦ some (record h { rq = rq; left = h.left ++ h.rq.queue })
  ]

  unfoldable pub run : History → List Op → Option History
  run h [] = some h
  run h (op ∷ ops) = elim (step h op) [ none ↦ none | some h' ↦ run h' ops ]

  abbrev pub start : ℕ → History
  start max_size = record {
    rq = new_request_queue C E max_size;
    offered = 0;
    accepted = [];
    left = [];
  }

  -- Nothing was sent to a queued request's channel.
  abbrev pub IsFresh : QueuedRequest C E → Type κ
  IsFresh qr = qr.response ≡ new_channel

  pub record IsAccounted (h : History) : Type (ℓ ⊔ κ) where
    pub in_order : h.accepted ≡ h.left ++ h.rq.queue
    pub counted : h.offered ≡ h.rq.total_processed + h.rq.total_dropped + length h.rq.queue
    pub queued : h.rq.total_queued ≡ length h.accepted
    pub bounded : length h.rq.queue ≤ h.rq.max_size
    pub fresh : All IsFresh h.rq.queue

  -- A request that has got the error of `Clear`.
  abbrev pub answered : E → QueuedRequest C E → QueuedRequest C E
  answered e qr = record qr { response = record { buffer = some e; closed = true } }

  notify-fresh :
      (qrs : List (QueuedRequest C E)) (e : E)
      → All IsFresh qrs
      → notify C E qrs e ≡ some (map (answered e) qrs)
  unfolding notify send_and_close new_channel
  notify-fresh [] e h = refl
  notify-fresh (qr ∷ qrs) e (h, hs) = rw (h, notify-fresh qrs e hs) refl

  -- Over a queue whose requests have had no answer `Clear` does not panic: it empties the queue,
  -- counts its requests as dropped, and each of them ends with the error in its channel and the
  -- channel closed.
  pub clear-fresh :
      (rq : RequestQueue C E) (e : E)
      → All IsFresh rq.queue
      → clear C E rq e
        ≡ some (
          record rq { queue = []; total_dropped = rq.total_dropped + length rq.queue },
          map (answered e) rq.queue,
        )
  unfolding clear
  clear-fresh rq e h = go rq.queue h
    where
      go :
          (qrs : List (QueuedRequest C E))
          → All IsFresh qrs
          → clear C E (record rq { queue = qrs }) e
            ≡ some (
              record rq { queue = []; total_dropped = rq.total_dropped + length qrs },
              map (answered e) qrs,
            )
      go [] h =
          ap (λ n. some (record rq { queue = []; total_dropped = n }, []))
            {y = rq.total_dropped + 0} (omega arith)
      go (qr ∷ qrs) h = rw (notify-fresh (qr ∷ qrs) e h) (ground arith)

  enqueue_cases :
      (rq : RequestQueue C E) (d : List ℕ) (c : C) (now : ℕ)
      → ((rq.max_size ≤ length rq.queue)
          × (enqueue C E rq d c now ≡ (record rq { total_dropped = rq.total_dropped + 1 }, none)))
        ⊎ ((length rq.queue < rq.max_size)
            × (enqueue C E rq d c now ≡ (
              record rq {
                queue = rq.queue ++ request d c now ∷ [];
                total_queued = rq.total_queued + 1;
              },
              some new_channel,
            )))
  unfolding enqueue
  enqueue_cases rq d c now = elim (Bool-cases (leb rq.max_size (length rq.queue))) [
    | inl full ↦ inl (omega tests, rw full refl)
    | inr room ↦ inr (omega tests, rw room refl)
  ]

  All-snoc :
      (qrs : List (QueuedRequest C E)) (qr : QueuedRequest C E)
      → All IsFresh qrs
      → IsFresh qr
      → All IsFresh (qrs ++ qr ∷ [])
  All-snoc [] qr h f = (f, tt)
  All-snoc (x ∷ qrs) qr (h, hs) f = (h, All-snoc qrs qr hs f)

  dequeue_all_lem :
      (rq : RequestQueue C E)
      → dequeue_all C E rq ≡ (
        record rq { queue = []; total_processed = rq.total_processed + length rq.queue },
        rq.queue,
      )
  unfolding dequeue_all
  dequeue_all_lem rq = go rq.queue
    where
      go :
          (qrs : List (QueuedRequest C E))
          → dequeue_all C E (record rq { queue = qrs })
            ≡ (record rq { queue = []; total_processed = rq.total_processed + length qrs }, qrs)
      go [] =
          ap (λ n. (record rq { queue = []; total_processed = n }, [])) {y = rq.total_processed + 0}
            (omega arith)
      go (qr ∷ qrs) = ground arith

  step-IsAccounted :
      (h : History) (op : Op)
      → IsAccounted h
      → (h' : History) × (step h op ≡ some h') × IsAccounted h'
  unfolding step
  step-IsAccounted h (offer d c now) v = elim (enqueue_cases h.rq d c now) [
    | inl (full, e) ↦ (
      _,
      ap (λ r. some (offered_to h d c now r)) e,
      record {
        in_order = v.in_order;
        counted = omega (arith, v.counted);
        queued = v.queued;
        bounded = v.bounded;
        fresh = v.fresh;
      },
    )
    | inr (room, e) ↦ (
      _,
      ap (λ r. some (offered_to h d c now r)) e,
      record {
        in_order =
            ap (λ xs. xs ++ request d c now ∷ []) v.in_order
            ∙ append_assoc h.left h.rq.queue (request d c now ∷ []);
        counted = omega (arith, v.counted, length-append h.rq.queue (request d c now ∷ []));
        queued = omega (arith, v.queued, length-append h.accepted (request d c now ∷ []));
        bounded = omega (arith, length-append h.rq.queue (request d c now ∷ []));
        fresh = All-snoc h.rq.queue (request d c now) v.fresh refl;
      },
    )
  ]
  step-IsAccounted h take v = (
    _,
    ap (λ r. some (record h { rq = r.0; left = h.left ++ r.1 })) (dequeue_all_lem h.rq),
    record {
      in_order = v.in_order ∙ sym (append-nil (h.left ++ h.rq.queue));
      counted = omega (arith, v.counted);
      queued = v.queued;
      bounded = omega arith;
      fresh = tt;
    },
  )
  step-IsAccounted h (drop e) v = (
    record h {
      rq = record h.rq { queue = []; total_dropped = h.rq.total_dropped + length h.rq.queue };
      left = h.left ++ h.rq.queue;
    },
    rw (clear-fresh h.rq e v.fresh, step) refl,
    record {
      in_order = v.in_order ∙ sym (append-nil (h.left ++ h.rq.queue));
      counted = omega (arith, v.counted);
      queued = v.queued;
      bounded = omega arith;
      fresh = tt;
    },
  )

  run-IsAccounted :
      (h : History) (ops : List Op)
      → IsAccounted h
      → (h' : History) × (run h ops ≡ some h') × IsAccounted h'
  unfolding run
  run-IsAccounted h [] v = (h, refl, v)
  run-IsAccounted h (op ∷ ops) v =
      let (h1, e, v1) = step-IsAccounted h op v in
      let (h2, e2, v2) = run-IsAccounted h1 ops v1 in (h2, rw (e, run) e2, v2)

  -- Any sequence of offers, takes and clears on a new queue goes through without a panic. After it
  -- the accepted requests are, in their order, those that have left followed by those queued; every
  -- offer is counted once, as processed, as dropped or as still queued; and the queue is within its
  -- bound.
  pub run-start-IsAccounted :
      (max_size : ℕ) (ops : List Op)
      → (h : History) × (run (start max_size) ops ≡ some h) × IsAccounted h
  unfolding new_request_queue
  run-start-IsAccounted max_size ops =
      run-IsAccounted (start max_size) ops (record {
        in_order = refl;
        counted = refl;
        queued = refl;
        bounded = omega arith;
        fresh = tt;
      })
