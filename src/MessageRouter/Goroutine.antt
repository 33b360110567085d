-- ===== src/MessageRouter/Goroutine.antt =====
-- The goroutine of a request, from its beginning to its end.
use mcp_bridge.Prelude.{
  ℕ, ◌+◌, ◌<◌, ◌≡◌, inl, inr, refl, sym, ap, subst, Bool, true, ◌&&◌, none, some, List, ◌∷◌, All-In,
  All-of_In, arith, eq_iff, Bool-cases, if_cases, String, str_eq, find, remove, find-remove,
}
use mcp_bridge.RequestQueue.{Channel, new_channel}
use mcp_bridge.MessageRouter.Correlation.{
  Response, Task, Line, answer, failure, Router, set_channel, close_channel, with_channel, cleanup,
  fail, is_ready, proceed, Event, sent_ok, wake,
}
use mcp_bridge.MessageRouter.Pending.{
  Served, Apart, Is, Matches, IsCorrelated, is_id, live, Took, Served-apart, find-remove-other,
}
use mcp_bridge.MessageRouter.Submission.{lines, submits, Goes}

-- A goroutine that ends with a line.
ended-Goes :
    (r r' : Router) (e : Event) (t : Task) (others : List Task) (l : Line)
    → ((id : String) → live id r.tasks ≡ is_id id t + live id others)
    → ((id : String) → submits id e ≡ 0)
    → r'.tasks ≡ others
    → r'.stdout ≡ (t.id, l) ∷ r.stdout
    → IsCorrelated r'
    → Goes r e (some r')
ended-Goes r r' e t others l count none_in tasks out h = (
  r',
  refl,
  h,
  (λ id. omega (arith, ap (live id) tasks, ap (lines id) out, count id, none_in id)),
)

-- The others, once the identifier of `t` is not pending.
others-IsCorrelated :
    (r : Router) (t : Task) (others : List Task) (l : Line)
    → IsCorrelated r
    → Took r.tasks (some (t, others))
    → find t.id r.pending_reqs ≡ none
    → Matches (t.id, l)
    → IsCorrelated (record r { tasks = others; stdout = (t.id, l) ∷ r.stdout })
unfolding Took
others-IsCorrelated r t others l (served, distinct, below, known, matched) (all, any, apart, count)
      e m =
    (
      (all (Served r.pending_reqs r.channels) served).1,
      (apart distinct).1,
      (all (λ s. s.channel < r.next_channel) below).1,
      (λ j c f. elim (any (Is j c) (known j c f)) [ inl (i, _) ↦ absurd cc | inr a ↦ a ]),
      (m, matched),
    )

-- The same, where the clean-up closes the channel of `t`.
cleaned-IsCorrelated :
    (r : Router) (t : Task) (others : List Task) (ch : Channel Response)
    → IsCorrelated r
    → Took r.tasks (some (t, others))
    → IsCorrelated (record r {
      pending_reqs = remove t.id r.pending_reqs;
      channels = set_channel r.channels t.channel ch;
      tasks = others;
      stdout = (t.id, failure) ∷ r.stdout;
    })
unfolding Took
cleaned-IsCorrelated r t others ch (served, distinct, below, known, matched)
      (all, any, apart, count) =
    let pending = remove t.id r.pending_reqs in
    let (all_apart, distinct') = apart distinct in
    let served' = (all (Served r.pending_reqs r.channels) served).1 in
    (
      All-of_In (Served pending (set_channel r.channels t.channel ch)) others (λ s m.
          let (i, n) = All-In (Apart t) others s all_apart m in
          Served-apart r.pending_reqs pending r.channels t.id t.channel ch s
            (λ j d. find-remove-other t.id j r.pending_reqs d) i n (All-In _ others s served' m)),
      distinct',
      (all (λ s. s.channel < r.next_channel) below).1,
      (λ j c f. elim (Bool-cases (str_eq t.id j)) [
        | inl same ↦ absurd (ground (arith, find-remove t.id j r.pending_reqs, same, f))
        | inr diff ↦
            elim (any (Is j c)
              (known j c (ground (arith, find-remove t.id j r.pending_reqs, diff, f)))) [
                | inl (i, _) ↦ absurd (ground (arith, eq_iff t.id j, diff, i))
                | inr a ↦ a
              ]
      ]),
      (tt, matched),
    )

fail-none :
    (r : Router) (t : Task) (others : List Task)
    → find t.id r.pending_reqs ≡ none
    → fail r t others ≡ some (record r { tasks = others; stdout = (t.id, failure) ∷ r.stdout })
unfolding fail cleanup
fail-none r t others f = rw (fail, cleanup, f) refl

fail-some :
    (r : Router) (t : Task) (others : List Task)
    → find t.id r.pending_reqs ≡ some t.channel
    → r.channels t.channel ≡ new_channel
    → fail r t others
      ≡ some (record r {
        pending_reqs = remove t.id r.pending_reqs;
        channels = set_channel r.channels t.channel (record { buffer = none; closed = true });
        tasks = others;
        stdout = (t.id, failure) ∷ r.stdout;
      })
unfolding fail cleanup with_channel close_channel new_channel
fail-some r t others f n = rw (fail, cleanup, f, n) refl

pub fail-Goes :
    (r : Router) (e : Event) (t : Task) (others : List Task)
    → IsCorrelated r
    → Took r.tasks (some (t, others))
    → ((id : String) → submits id e ≡ 0)
    → Goes r e (fail r t others)
unfolding Took
fail-Goes r e t others h took none_in = elim (took.0 (Served r.pending_reqs r.channels) h.0).0 [
  | inl (f, n) ↦
      let ch : Channel Response = record { buffer = none; closed = true } in
      let r' = record r {
        pending_reqs = remove t.id r.pending_reqs;
        channels = set_channel r.channels t.channel ch;
        tasks = others;
        stdout = (t.id, failure) ∷ r.stdout;
      } in
      subst (Goes r e) (sym (fail-some r t others f n)) (
        ended-Goes r r' e t others failure took.3 none_in refl refl
          (cleaned-IsCorrelated r t others ch h took))
  | inr (f, _) ↦
      let r' = record r { tasks = others; stdout = (t.id, failure) ∷ r.stdout } in
      subst (Goes r e) (sym (fail-none r t others f)) (
        ended-Goes r r' e t others failure took.3 none_in refl refl
          (others-IsCorrelated r t others failure h took f tt))
]

-- Nothing happens.
pub stay-Goes :
    (r : Router) (e : Event)
    → IsCorrelated r
    → ((id : String) → submits id e ≡ 0)
    → Goes r e (some r)
stay-Goes r e h none_in = (r, refl, h, (λ id. omega (arith, none_in id)))

no_answer : (b : Bool) → ¬ ((b && is_ready new_channel) ≡ true)
unfolding new_channel
no_answer b h = ground arith

pub wake-Goes :
    (r : Router) (c : ℕ) (t : Task) (others : List Task)
    → IsCorrelated r
    → Took r.tasks (some (t, others))
    → Goes r (wake c) (proceed r (wake c) t others)
unfolding proceed Took
wake-Goes r c t others h took =
    let r' = record r {
      tasks = others;
      stdout = (t.id, answer (r.channels t.channel).buffer) ∷ r.stdout;
    } in
    if_cases (Goes r (wake c)) (t.sent && is_ready (r.channels t.channel)) _ _
      (λ ready. elim (took.0 (Served r.pending_reqs r.channels) h.0).0 [
        | inl (f, n) ↦
            absurd (no_answer t.sent (subst (λ ch. (t.sent && is_ready ch) ≡ true) n ready))
        | inr (f, (resp, m, k)) ↦
            ended-Goes r r' (wake c) t others (answer (r.channels t.channel).buffer) took.3
              (λ id. refl) refl refl
              (others-IsCorrelated r t others (answer (r.channels t.channel).buffer) h took f
                (resp, ap (λ ch. ch.buffer) k, m))
      ])
      (λ _. stay-Goes r (wake c) h (λ id. refl))

pub sent_ok-Goes :
    (r : Router) (c : ℕ) (t : Task) (others : List Task)
    → IsCorrelated r
    → Took r.tasks (some (t, others))
    → Goes r (sent_ok c) (proceed r (sent_ok c) t others)
unfolding proceed Took
sent_ok-Goes r c t others (served, distinct, below, known, matched) (all, any, apart, count) = (
  record r { tasks = record t { sent = true } ∷ others },
  refl,
  (
    all (Served r.pending_reqs r.channels) served,
    apart distinct,
    all (λ s. s.channel < r.next_channel) below,
    (λ j d f. any (Is j d) (known j d f)),
    matched,
  ),
  (λ id. omega (arith, count id)),
)
