-- ===== src/MessageRouter/Answers.antt =====
-- Each request over the events of the router.
use mcp_bridge.Prelude.{
  ℕ, ◌+◌, ◌≡◌, ◌≢◌, inl, inr, refl, sym, ◌∙◌, subst, ◌&&◌, Option, none, some, List, [], ◌∷◌, All,
  All-map, All-In, All-of_In, Any, arith, eq_iff, Bool-cases, Option-cases, if_cases, String,
  str_eq, find, remove, find-remove,
}
use mcp_bridge.RequestQueue.{new_channel, send_and_close}
use mcp_bridge.MessageRouter.Correlation.{
  scalar, composite, Response, Task, Router, start, set_channel, with_channel, deliver_response,
  take_task, is_ready, proceed, resume, step, run, Event, submit, sent_ok, send_failed, wake,
  wake_blocked, timed_out, response,
}
use mcp_bridge.MessageRouter.Pending.{
  answered, Served, Apart, Distinct, Is, IsCorrelated, live, Took, take_task-Took, Served-apart,
  find-remove-other,
}
use mcp_bridge.MessageRouter.Submission.{lines, submits, Goes, submit-Goes}
use mcp_bridge.MessageRouter.Goroutine.{fail-Goes, stay-Goes, wake-Goes, sent_ok-Goes}

resume-Goes :
    (r : Router) (e : Event) (o : Option (Task × List Task))
    → IsCorrelated r
    → Took r.tasks o
    → ((id : String) → submits id e ≡ 0)
    → Goes r e (resume r e o)
unfolding resume proceed Took
resume-Goes r e none h took none_in = stay-Goes r e h none_in
resume-Goes r (sent_ok c) (some (t, others)) h took none_in = sent_ok-Goes r c t others h took
resume-Goes r (wake c) (some (t, others)) h took none_in = wake-Goes r c t others h took
resume-Goes r (submit id) (some (t, others)) h took none_in = stay-Goes r (submit id) h none_in
resume-Goes r (response id body) (some (t, others)) h took none_in =
    stay-Goes r (response id body) h none_in
resume-Goes r (send_failed c) (some (t, others)) h took none_in =
    if_cases (Goes r (send_failed c)) t.sent _ _ (λ _. stay-Goes r (send_failed c) h none_in)
      (λ _. fail-Goes r (send_failed c) t others h took none_in)
resume-Goes r (wake_blocked c) (some (t, others)) h took none_in =
    if_cases (Goes r (wake_blocked c)) (t.sent && is_ready (r.channels t.channel)) _ _
      (λ _. fail-Goes r (wake_blocked c) t others h took none_in)
      (λ _. stay-Goes r (wake_blocked c) h none_in)
resume-Goes r (timed_out c) (some (t, others)) h took none_in =
    if_cases (Goes r (timed_out c)) t.sent _ _
      (λ _. fail-Goes r (timed_out c) t others h took none_in)
      (λ _. stay-Goes r (timed_out c) h none_in)

any-All : (P Q : Task → Type 0) (ts : List Task) → Any P ts → All Q ts → (t : Task) × P t × Q t
any-All P Q [] a h = absurd a
any-All P Q (t ∷ ts) (inl p) (q, qs) = (t, p, q)
any-All P Q (t ∷ ts) (inr ps) (q, qs) = any-All P Q ts ps qs

-- A channel is that of one identifier.
Distinct-same :
    (id : String) (c : ℕ) (ts : List Task)
    → Distinct ts
    → Any (Is id c) ts
    → All (λ s. s.channel ≡ c → s.id ≡ id) ts
Distinct-same id c [] h a = absurd a
Distinct-same id c (t ∷ ts) (h, hs) (inl (i, n)) =
    ((λ _. i), All-map (Apart t) _ ts (λ s (_, apart) e. absurd (apart (n ∙ sym e))) h)
Distinct-same id c (t ∷ ts) (h, hs) (inr a) = (
  (λ e.
      let (s, (_, n), (_, apart)) = any-All (Is id c) (Apart t) ts a h in
      absurd (apart (e ∙ sym n))),
  Distinct-same id c ts hs a,
)

-- A response and each request: the one with its identifier has it in its channel then.
Served-response :
    (r : Router) (resp : Response) (c : ℕ) (s : Task)
    → find resp.id r.pending_reqs ≡ some c
    → (s.channel ≡ c → s.id ≡ resp.id)
    → Served r.pending_reqs r.channels s
    → Served (remove resp.id r.pending_reqs) (set_channel r.channels c (answered resp)) s
Served-response r resp c s f same h = elim (Bool-cases (str_eq resp.id s.id)) [
  | inl here ↦ elim h [
    | inr (absent, _) ↦ let same_id = (eq_iff resp.id s.id).0 here in absurd cc
    | inl (found, n) ↦
        let same_id = (eq_iff resp.id s.id).0 here in
        let same_channel : c ≡ s.channel = cc in
        inr (
          ground (arith, find-remove resp.id s.id r.pending_reqs, here),
          (resp, (eq_iff resp.id s.id).0 here, ground (arith, same_channel)),
        )
  ]
  | inr there ↦
      Served-apart r.pending_reqs (remove resp.id r.pending_reqs) r.channels resp.id c
        (answered resp) s (λ j d. find-remove-other resp.id j r.pending_reqs d)
        (λ e. ground (arith, eq_iff resp.id s.id, there, e))
        (λ e. ground (arith, eq_iff resp.id s.id, there, sym (same (sym e)))) h
]

open_channel :
    (r : Router) (id : String) (c : ℕ) (t : Task)
    → find id r.pending_reqs ≡ some c
    → Is id c t
    → Served r.pending_reqs r.channels t
    → r.channels c ≡ new_channel
open_channel r id c t f (i, n) (inl (_, k)) = subst (λ d. r.channels d ≡ new_channel) n k
open_channel r id c t f (i, n) (inr (absent, _)) = absurd cc

route-none :
    (r : Router) (resp : Response)
    → find resp.id r.pending_reqs ≡ none
    → deliver_response r resp ≡ some r
unfolding deliver_response
route-none r resp f = rw (deliver_response, f) refl

route-some :
    (r : Router) (resp : Response) (c : ℕ)
    → find resp.id r.pending_reqs ≡ some c
    → r.channels c ≡ new_channel
    → deliver_response r resp
      ≡ some (record r {
        pending_reqs = remove resp.id r.pending_reqs;
        channels = set_channel r.channels c (answered resp);
      })
unfolding deliver_response with_channel send_and_close new_channel
route-some r resp c f n = rw (deliver_response, f, n) refl

deliver_response-Goes :
    (r : Router) (resp : Response)
    → IsCorrelated r
    → Goes r (response (scalar resp.id) resp.body) (deliver_response r resp)
deliver_response-Goes r resp (served, distinct, below, known, matched) =
    elim (Option-cases (find resp.id r.pending_reqs)) [
      | inl f ↦ subst (Goes r (response (scalar resp.id) resp.body)) (sym (route-none r resp f)) (
          stay-Goes r (response (scalar resp.id) resp.body)
            (served, distinct, below, known, matched) (λ id. refl))
      | inr (c, f) ↦
          let waits = known resp.id c f in
          let (t, is, mine) =
            any-All (Is resp.id c) (Served r.pending_reqs r.channels) r.tasks waits served in
          let same = Distinct-same resp.id c r.tasks distinct waits in
          let r' = record r {
            pending_reqs = remove resp.id r.pending_reqs;
            channels = set_channel r.channels c (answered resp);
          } in
          subst (Goes r (response (scalar resp.id) resp.body))
            (sym (route-some r resp c f (open_channel r resp.id c t f is mine)))
            (
              r',
              refl,
              (
                All-of_In (Served r'.pending_reqs r'.channels) r.tasks (λ s m.
                    Served-response r resp c s f (All-In _ r.tasks s same m)
                      (All-In _ r.tasks s served m)),
                distinct,
                below,
                (λ j d e. known j d (ground (arith, find-remove resp.id j r.pending_reqs, e))),
                matched,
              ),
              (λ id. omega arith),
            )
    ]

-- What an event asks for: that identifiers are scalars, and that of a new request is not in flight.
abbrev pub IsAllowed : Router → Event → Type 0
IsAllowed r (submit (scalar id)) = All (λ t. id ≢ t.id) r.tasks
IsAllowed r (submit composite) = ⊥
IsAllowed r (response composite body) = ⊥
IsAllowed r e = Unit

abbrev pub AreAllowed : Router → List Event → Type 0
AreAllowed r [] = Unit
AreAllowed r (e ∷ es) =
    IsAllowed r e × (elim (step r e) [ none ↦ Unit | some r' ↦ AreAllowed r' es ])

step-Goes : (r : Router) (e : Event) → IsCorrelated r → IsAllowed r e → Goes r e (step r e)
unfolding step
step-Goes r (submit (scalar id)) h new = submit-Goes r id h new
step-Goes r (submit composite) h new = elim new [ ]
step-Goes r (response (scalar id) body) h tt =
    deliver_response-Goes r (record { id = id; body = body }) h
step-Goes r (response composite body) h new = elim new [ ]
step-Goes r (sent_ok c) h tt =
    resume-Goes r (sent_ok c) (take_task c r.tasks) h (take_task-Took c r.tasks) (λ id. refl)
step-Goes r (send_failed c) h tt =
    resume-Goes r (send_failed c) (take_task c r.tasks) h (take_task-Took c r.tasks) (λ id. refl)
step-Goes r (wake c) h tt =
    resume-Goes r (wake c) (take_task c r.tasks) h (take_task-Took c r.tasks) (λ id. refl)
step-Goes r (wake_blocked c) h tt =
    resume-Goes r (wake_blocked c) (take_task c r.tasks) h (take_task-Took c r.tasks) (λ id. refl)
step-Goes r (timed_out c) h tt =
    resume-Goes r (timed_out c) (take_task c r.tasks) h (take_task-Took c r.tasks) (λ id. refl)

abbrev pub submits_in : String → List Event → ℕ
submits_in id [] = 0
submits_in id (e ∷ es) = submits id e + submits_in id es

-- Where the events take the router.
abbrev pub Arrives : Router → List Event → Option Router → Type 0
Arrives r es o =
    (r' : Router) × (o ≡ some r')
    × IsCorrelated r'
    × ((id : String)
        → lines id r'.stdout + live id r'.tasks
          ≡ lines id r.stdout + live id r.tasks + submits_in id es)

run-Arrives :
    (es : List Event) (r : Router) → IsCorrelated r → AreAllowed r es → Arrives r es (run r es)
unfolding run
run-Arrives [] r h allowed = (r, refl, h, (λ id. omega arith))
run-Arrives (e ∷ es) r h (now, later) =
    let (r', eq, h', count) = step-Goes r e h now in
    let (r'', eq', h'', count') =
      run-Arrives es r' h'
        (subst (λ o. elim o [ none ↦ Unit | some q ↦ AreAllowed q es ]) eq later) in
    (
      r'',
      subst (λ o. (elim o [ none ↦ none | some q ↦ run q es ]) ≡ some r'') (sym eq) eq',
      h'',
      (λ id. omega (arith, count id, count' id)),
    )

-- Any events of a new router in which no identifier is an object or array and no request is
-- submitted while another with its identifier is in flight go through without a panic: a
-- goroutine's request is pending with an open, empty channel or its response is in its closed
-- channel, every line with a response has the response to its own request and never nil, and each
-- request that was submitted has one goroutine or one line.
pub run-start-Arrives : (es : List Event) → AreAllowed start es → Arrives start es (run start es)
unfolding start find
run-start-Arrives es allowed = run-Arrives es start (tt, tt, tt, (λ id c f. absurd cc), tt) allowed
