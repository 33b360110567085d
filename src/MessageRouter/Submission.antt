-- ===== src/MessageRouter/Submission.antt =====
-- A request comes in.
use mcp_bridge.Prelude.{
  ℕ, ◌+◌, ◌≡◌, ◌≢◌, inl, inr, refl, false, Option, some, List, [], ◌∷◌, All, All-map, All-In,
  All-of_In, arith, eq_iff, str_eq_refl, Bool-cases, if◌then◌else◌, String, str_eq, put, find-put,
}
use mcp_bridge.RequestQueue.{new_channel}
use mcp_bridge.MessageRouter.Correlation.{
  scalar, Line, Router, set_channel, store_request, step, Event, submit,
}
use mcp_bridge.MessageRouter.Pending.{
  Served, Apart, IsCorrelated, live, Served-apart, find-put-other,
}

abbrev pub lines : String → List (String × Line) → ℕ
lines id [] = 0
lines id ((j, l) ∷ xs) = (if str_eq j id then 1 else 0) + lines id xs

abbrev pub submits : String → Event → ℕ
submits id (submit (scalar j)) = if str_eq j id then 1 else 0
submits id e = 0

-- The router goes on, each request that has come in having one goroutine or one line.
abbrev pub Goes : Router → Event → Option Router → Type 0
Goes r e o =
    (r' : Router) × (o ≡ some r')
    × IsCorrelated r'
    × ((id : String)
        → lines id r'.stdout + live id r'.tasks
          ≡ lines id r.stdout + live id r.tasks + submits id e)

pub submit-Goes :
    (r : Router) (id : String)
    → IsCorrelated r
    → All (λ t. id ≢ t.id) r.tasks
    → Goes r (submit (scalar id)) (step r (submit (scalar id)))
unfolding step store_request
submit-Goes r id (served, distinct, below, known, matched) new =
    let n = r.next_channel in
    let pending = put id n r.pending_reqs in
    let channels = set_channel r.channels n new_channel in
    (
      store_request r id,
      refl,
      (
        (
          inl (ground (arith, find-put id id n r.pending_reqs, str_eq_refl id), ground arith),
          All-of_In (Served pending channels) r.tasks (λ t m.
              Served-apart r.pending_reqs pending r.channels id n new_channel t
                (λ j d. find-put-other id j n r.pending_reqs d) (All-In _ r.tasks t new m)
                (omega (arith, All-In _ r.tasks t below m)) (All-In _ r.tasks t served m)),
        ),
        (
          All-of_In (Apart (record { id = id; channel = n; sent = false })) r.tasks
              (λ t m. (All-In _ r.tasks t new m, omega (arith, All-In _ r.tasks t below m))),
          distinct,
        ),
        (omega arith, All-map _ _ r.tasks (λ t b. omega (arith, b)) below),
        (λ j c e. elim (Bool-cases (str_eq id j)) [
          | inl same ↦
              inl ((eq_iff id j).0 same, ground (arith, find-put id j n r.pending_reqs, same, e))
          | inr diff ↦ inr (known j c (ground (arith, find-put id j n r.pending_reqs, diff, e)))
        ]),
        matched,
      ),
      (λ j. omega arith),
    )
