-- ===== src/MessageRouter/Pending.antt =====
-- When the table of pending requests, the channels and the goroutines belong together.
use mcp_bridge.Prelude.{
  ℕ, ◌+◌, ◌<◌, ◌≡◌, ◌==◌, ◌≢◌, ◌⊎◌, inl, inr, refl, sym, ◌∙◌, true, Option, none, some, List, [],
  ◌∷◌, All, Any, arith, eq_iff, Bool-cases, if◌then◌else◌, String, str_eq, StrMap, find, put,
  remove, find-remove, find-put,
}
use mcp_bridge.RequestQueue.{Channel, new_channel}
use mcp_bridge.MessageRouter.Correlation.{
  Response, Task, Line, answer, failure, Router, set_channel, take_task,
}

abbrev pub answered : Response → Channel Response
answered resp = record { buffer = some resp; closed = true }

-- The request waits for its response, or its response is in its closed channel.
abbrev pub Served : StrMap ℕ → (ℕ → Channel Response) → Task → Type 0
Served pending channels t =
    ((find t.id pending ≡ some t.channel) × (channels t.channel ≡ new_channel))
    ⊎ ((find t.id pending ≡ none)
        × ((resp : Response) × (resp.id ≡ t.id) × (channels t.channel ≡ answered resp)))

abbrev pub Apart : Task → Task → Type 0
Apart t s = (t.id ≢ s.id) × (t.channel ≢ s.channel)

abbrev pub Distinct : List Task → Type 0
Distinct [] = Unit
Distinct (t ∷ ts) = All (Apart t) ts × Distinct ts

abbrev pub Is : String → ℕ → Task → Type 0
Is id c t = (t.id ≡ id) × (t.channel ≡ c)

-- A line with a response has the response to its request.
abbrev pub Matches : String × Line → Type 0
Matches (id, answer buffer) = (resp : Response) × (buffer ≡ some resp) × (resp.id ≡ id)
Matches (id, failure) = Unit

abbrev pub IsCorrelated : Router → Type 0
IsCorrelated r =
    All (Served r.pending_reqs r.channels) r.tasks
    × Distinct r.tasks
    × All (λ t. t.channel < r.next_channel) r.tasks
    × ((id : String) (c : ℕ) → find id r.pending_reqs ≡ some c → Any (Is id c) r.tasks)
    × All Matches r.stdout

abbrev pub is_id : String → Task → ℕ
is_id id t = if str_eq t.id id then 1 else 0

abbrev pub live : String → List Task → ℕ
live id [] = 0
live id (t ∷ ts) = is_id id t + live id ts

-- A task and the others.
unfoldable pub Took : List Task → Option (Task × List Task) → Type 1
Took ts none = Unit
Took ts (some (t, others)) =
    ((P : Task → Type 0) → All P ts → P t × All P others)
    × ((P : Task → Type 0) → Any P ts → P t ⊎ Any P others)
    × (Distinct ts → All (Apart t) others × Distinct others)
    × ((id : String) → live id ts ≡ is_id id t + live id others)

Apart-sym : (s t : Task) → Apart s t → Apart t s
Apart-sym s t (i, c) = ((λ e. i (sym e)), (λ e. c (sym e)))

Took-cons :
    (t : Task) (ts : List Task) (r : Option (Task × List Task))
    → Took ts r
    → Took (t ∷ ts) (elim r [ none ↦ none | some (found, others) ↦ some (found, t ∷ others) ])
unfolding Took
Took-cons t ts none h = tt
Took-cons t ts (some (found, others)) (all, any, distinct, count) = (
  (λ P (h, hs). let (p, ps) = all P hs in (p, (h, ps))),
  (λ P h. elim h [
    | inl p ↦ inr (inl p)
    | inr ps ↦ elim (any P ps) [ inl q ↦ inl q | inr qs ↦ inr (inr qs) ]
  ]),
  (λ (h, hs).
      let (a, d) = distinct hs in
      let (p, ps) = all (Apart t) h in ((Apart-sym t found p, a), (ps, d))),
  (λ id. omega (arith, count id)),
)

pub take_task-Took : (c : ℕ) (ts : List Task) → Took ts (take_task c ts)
unfolding take_task Took
take_task-Took c [] = tt
take_task-Took c (t ∷ ts) = elim (Bool-cases (t.channel == c)) [
  | inl here ↦ rw here ((λ P h. h), (λ P h. h), (λ h. h), (λ id. refl))
  | inr there ↦ rw there (Took-cons t ts (take_task c ts) (take_task-Took c ts))
]

-- One entry and one channel change, which are not this request's.
pub Served-apart :
    (pending pending' : StrMap ℕ) (channels : ℕ → Channel Response) (id : String) (c : ℕ)
    (ch : Channel Response) (t : Task)
    → ((j : String) → id ≢ j → find j pending' ≡ find j pending)
    → id ≢ t.id
    → c ≢ t.channel
    → Served pending channels t
    → Served pending' (set_channel channels c ch) t
Served-apart pending pending' channels id c ch t same i n (inl (e, k)) =
    inl (same t.id i ∙ e, ground (arith, k, n))
Served-apart pending pending' channels id c ch t same i n (inr (e, (resp, m, k))) =
    inr (same t.id i ∙ e, (resp, m, ground (arith, k, n)))

pub find-put-other : (k j : String) (v : ℕ) (m : StrMap ℕ) → k ≢ j → find j (put k v m) ≡ find j m
find-put-other k j v m n = ground (arith, find-put k j v m, eq_iff k j, n)

pub find-remove-other : (k j : String) (m : StrMap ℕ) → k ≢ j → find j (remove k m) ≡ find j m
find-remove-other k j m n = ground (arith, find-remove k j m, eq_iff k j, n)
