-- ===== src/Balancer/LeastConnections.antt =====
-- `LeastConnections` of loadbalancer.go.
use mcp_bridge.Prelude.{
  sym, subst, find, ℕ, ◌+◌, ◌-◌, ◌^◌, ◌≤◌, ◌<◌, ◌≡◌, refl, ◌⊎◌, inl, inr, true, ◌&&◌, Option, none,
  some, List, [], ◌∷◌, ◌==◌, arith, ltb, if◌then◌else◌, length, String, StrMap, str_eq, eq_iff, In,
  Bool-cases,
}
use mcp_bridge.Balancer.{Endpoint, is_healthy}
use mcp_bridge.Balancer.Counts.{
  has_address, find-carry_over, count_of, increment, decrement, carry_over, count_of-increment,
  count_of-decrement,
}

pub record LeastConnections : Type 0 where
  pub endpoints : List Endpoint
  pub connections : StrMap ℕ

unfoldable pub new_least_connections : List Endpoint → LeastConnections
new_least_connections eps = record { endpoints = eps; connections = [] }

-- `int64(^uint64(0) >> 1)`
abbrev pub max_int64 : ℕ
max_int64 = 2 ^ 63 - 1

-- The loop of `Next` over the endpoints, with `selected` and `minConns`.
unfoldable pub least : StrMap ℕ → List Endpoint → Option Endpoint → ℕ → Option Endpoint
least conns [] selected min_conns = selected
least conns (ep ∷ eps) selected min_conns =
    let better = is_healthy ep && ltb (count_of conns ep.address) min_conns in
    least conns eps (if better then some ep else selected)
      (if better then count_of conns ep.address else min_conns)

-- The count of the endpoint that was selected goes up.
track : LeastConnections → Option Endpoint → LeastConnections × Option Endpoint
track lc none = (lc, none)
track lc (some ep) = (record lc { connections = increment lc.connections ep.address }, some ep)

unfoldable pub next : LeastConnections → LeastConnections × Option Endpoint
unfolding track
next lc =
    if length lc.endpoints == 0
    then (lc, none)
    else track lc (least lc.connections lc.endpoints none max_int64)

unfoldable pub update_endpoints : LeastConnections → List Endpoint → LeastConnections
update_endpoints lc eps = record { endpoints = eps; connections = carry_over lc.connections eps [] }

unfoldable pub release_connection : LeastConnections → String → LeastConnections
release_connection lc address = record lc { connections = decrement lc.connections address }

abbrev pub count_at : LeastConnections → String → ℕ
count_at lc k = count_of lc.connections k

-- No healthy endpoint has a count below `m`.
abbrev pub NoneBelow : StrMap ℕ → List Endpoint → ℕ → Type 0
NoneBelow conns eps m =
    (e : Endpoint) → In e eps → is_healthy e ≡ true → m ≤ count_of conns e.address

NoneBelow-cons :
    (conns : StrMap ℕ) (ep : Endpoint) (eps : List Endpoint) (m : ℕ)
    → (is_healthy ep ≡ true → m ≤ count_of conns ep.address)
    → NoneBelow conns eps m
    → NoneBelow conns (ep ∷ eps) m
NoneBelow-cons conns ep eps m h low e (inl same) t =
    subst (λ x. is_healthy x ≡ true → m ≤ count_of conns x.address) same h t
NoneBelow-cons conns ep eps m h low e (inr i) t = low e i t

-- Either the loop keeps what it had, or it ends at a healthy endpoint with the least count.
abbrev Least : StrMap ℕ → List Endpoint → Option Endpoint → ℕ → Option Endpoint → Type 0
Least conns eps selected m r =
    ((r ≡ selected) × NoneBelow conns eps m)
    ⊎ ((ep : Endpoint) × (r ≡ some ep)
        × In ep eps
        × (is_healthy ep ≡ true)
        × (count_of conns ep.address < m)
        × NoneBelow conns eps (count_of conns ep.address))

-- The first endpoint is better than what the loop had.
first :
    (conns : StrMap ℕ) (ep : Endpoint) (eps : List Endpoint) (selected : Option Endpoint) (m : ℕ)
    {r : Option Endpoint}
    → is_healthy ep ≡ true
    → count_of conns ep.address < m
    → Least conns eps (some ep) (count_of conns ep.address) r
    → Least conns (ep ∷ eps) selected m r
first conns ep eps selected m t lt (inl (e, low)) =
    inr (ep, e, inl refl, t, lt, NoneBelow-cons conns ep eps _ (λ _. omega arith) low)
first conns ep eps selected m t lt (inr (b, e, i, tb, ltb', low)) =
    inr (b, e, inr i, tb, omega arith, NoneBelow-cons conns ep eps _ (λ _. omega arith) low)

-- It is not.
later :
    (conns : StrMap ℕ) (ep : Endpoint) (eps : List Endpoint) (selected : Option Endpoint) (m : ℕ)
    {r : Option Endpoint}
    → (is_healthy ep ≡ true → m ≤ count_of conns ep.address)
    → Least conns eps selected m r
    → Least conns (ep ∷ eps) selected m r
later conns ep eps selected m h (inl (e, low)) = inl (e, NoneBelow-cons conns ep eps m h low)
later conns ep eps selected m h (inr (b, e, i, tb, lt, low)) =
    inr (b, e, inr i, tb, lt, NoneBelow-cons conns ep eps _ (λ t. omega (arith, h t)) low)

least-Least :
    (conns : StrMap ℕ) (eps : List Endpoint) (selected : Option Endpoint) (m : ℕ)
    → Least conns eps selected m (least conns eps selected m)
unfolding least
least-Least conns [] selected m = inl (refl, λ e i h. absurd i)
least-Least conns (ep ∷ eps) selected m =
    elim (Bool-cases (is_healthy ep && ltb (count_of conns ep.address) m)) [
      | inl better ↦ rw better (
          first conns ep eps selected m (ground arith) (ground arith)
            (least-Least conns eps (some ep) (count_of conns ep.address)))
      | inr worse ↦
          rw worse
            (later conns ep eps selected m (λ t. ground arith) (least-Least conns eps selected m))
    ]

-- What a selection is and does.
abbrev pub Selects : LeastConnections → LeastConnections × Option Endpoint → Type 0
Selects lc r =
    ((ep : Endpoint) × (r.1 ≡ some ep)
      × In ep lc.endpoints
      × (is_healthy ep ≡ true)
      × NoneBelow lc.connections lc.endpoints (count_at lc ep.address)
      × ((k : String)
          → count_at r.0 k ≡ (if str_eq ep.address k then count_at lc k + 1 else count_at lc k)))
    ⊎ ((r.1 ≡ none) × (r.0 ≡ lc) × NoneBelow lc.connections lc.endpoints max_int64)

track-Selects :
    (lc : LeastConnections) (o : Option Endpoint)
    → Least lc.connections lc.endpoints none max_int64 o
    → Selects lc (track lc o)
unfolding track
track-Selects lc o (inl (e, low)) = rw e (inr (refl, refl, low))
track-Selects lc o (inr (b, e, i, t, _, low)) =
    rw e (inl (b, refl, i, t, low, count_of-increment lc.connections b.address))

next_of :
    (eps : List Endpoint) (conns : StrMap ℕ)
    → let lc : LeastConnections = record { endpoints = eps; connections = conns } in
      Selects lc (next lc)
unfolding next
next_of [] conns = inr (refl, refl, λ e i h. absurd i)
next_of (ep ∷ eps) conns =
    let lc : LeastConnections = record { endpoints = ep ∷ eps; connections = conns } in
    let nonempty : next lc ≡ track lc (least conns (ep ∷ eps) none max_int64) = ground arith in
    subst (Selects lc) (sym nonempty)
      (track-Selects lc _ (least-Least conns (ep ∷ eps) none max_int64))

-- `Next` returns a healthy endpoint of the list whose count no healthy endpoint undercuts, and adds
-- one to the count of its address and of no other; or it returns nil, with nothing changed, and
-- every healthy endpoint has the largest int64 for its count.
pub next-least : (lc : LeastConnections) → Selects lc (next lc)
next-least lc = next_of lc.endpoints lc.connections

-- Releasing what `Next` returned restores every count.
pub release_connection-next :
    (lc : LeastConnections) (ep : Endpoint)
    → (next lc).1 ≡ some ep
    → (k : String) → count_at (release_connection (next lc).0 ep.address) k ≡ count_at lc k
unfolding release_connection
release_connection-next lc ep e k = restored (next-least lc)
  where
    restored :
        Selects lc (next lc)
        → count_of (decrement (next lc).0.connections ep.address) k ≡ count_of lc.connections k
    restored (inl (b, eb, _, _, _, up)) = ground (
      arith,
      count_of-decrement (next lc).0.connections ep.address k,
      up k,
      eq_iff ep.address k,
      eq_iff b.address k,
    )
    restored (inr (en, _, _)) = cc

-- After `UpdateEndpoints` an address has the count that it had, if an endpoint still has it, and
-- none otherwise.
pub update_endpoints_counts :
    (lc : LeastConnections) (eps : List Endpoint) (k : String)
    → find k (update_endpoints lc eps).connections
      ≡ (if has_address k eps then find k lc.connections else none)
unfolding update_endpoints
update_endpoints_counts lc eps k = find-carry_over lc.connections eps k
