-- ===== src/PoolClient/Counts.antt =====
-- Counts of active connections over a list of endpoints, with a connection for the current one.
use mcp_bridge.Prelude.{
  ◌≤◌, keep, length, ℕ, ◌+◌, ◌==◌, ◌≡◌, refl, ◌∙◌, inl, inr, ◌⊎◌, arith, true, false, Bool-cases,
  Option, none, some, List, [], ◌∷◌, if◌then◌else◌, if_cases, All, All-map, Result, ok, err,
}
use mcp_bridge.Prelude.Int.{pos, ◌+ℤ◌, ◌≤ℤ◌, int_laws}
use mcp_bridge.GatewayPool.{
  GatewayEndpointWrapper, GatewayPool, SelectError, panics, no_healthy_endpoints, no_endpoints,
  no_matching_tags, Choice, select_among, select_round_robin, apply_priority, is_up,
  select_endpoint, select_for_retry,
}
use mcp_bridge.NamespaceRouter.{}
use mcp_bridge.PoolClient.{modify, increment_connections, decrement_connections, first_choice}

-- One connection for the current endpoint.
abbrev pub need : Option ℕ → ℕ → ℕ
need none a = 0
need (some b) a = if b == a then 1 else 0

-- Each endpoint counts what it needs, but for `k`.
abbrev pub Counts : ℕ → Option ℕ → List GatewayEndpointWrapper → Type 0
Counts k current = All (λ e. pos (need current e.address) ≤ℤ e.active_conns +ℤ pos k)

pub modify-All :
    (P Q : GatewayEndpointWrapper → Type 0) (a : ℕ)
    (f : GatewayEndpointWrapper → GatewayEndpointWrapper) (eps : List GatewayEndpointWrapper)
    → ((e : GatewayEndpointWrapper) → P e → (e.address == a) ≡ true → Q (f e))
    → ((e : GatewayEndpointWrapper) → P e → (e.address == a) ≡ false → Q e)
    → All P eps
    → All Q (modify a f eps)
unfolding modify
modify-All P Q a f [] here there h = tt
modify-All P Q a f (ep ∷ eps) here there (h, hs) = (
  if_cases Q (ep.address == a) (f ep) ep (here ep h) (there ep h),
  modify-All P Q a f eps here there hs,
)

-- A change that leaves the count and the address alone.
pub modify-Counts :
    (k : ℕ) (current : Option ℕ) (a : ℕ) (f : GatewayEndpointWrapper → GatewayEndpointWrapper)
    (eps : List GatewayEndpointWrapper)
    → ((e : GatewayEndpointWrapper) → (f e).address ≡ e.address)
    → ((e : GatewayEndpointWrapper) → (f e).active_conns ≡ e.active_conns)
    → Counts k current eps
    → Counts k current (modify a f eps)
modify-Counts k current a f eps same_address same_conns h =
    modify-All _ _ a f eps (λ e c _. rw (same_address e, same_conns e) c) (λ e c _. c) h

need_le : (current : Option ℕ) (a : ℕ) → need current a ≤ 1
need_le none a = omega arith
need_le (some b) a = ground arith

need_other : (a b : ℕ) → (b == a) ≡ false → need (some a) b ≡ 0
need_other a b h = ground arith

need_same : (a b : ℕ) → (b == a) ≡ true → need (some a) b ≡ 1
need_same a b h = ground arith

pub increment-Counts :
    (k : ℕ) (current : Option ℕ) (a : ℕ) (eps : List GatewayEndpointWrapper)
    → Counts k current eps
    → Counts k (some a) (modify a increment_connections eps)
increment-Counts k current a eps h =
    modify-All _ _ a increment_connections eps
      (λ e c same. grind (int_laws, c, need_le (some a) e.address))
      (λ e c other. rw (need_other a e.address other) (omega (arith, c))) h

pub decrement-Counts :
    (k : ℕ) (b : ℕ) (eps : List GatewayEndpointWrapper)
    → Counts k (some b) eps
    → Counts k none (modify b decrement_connections eps)
decrement-Counts k b eps h =
    modify-All _ _ b decrement_connections eps
      (λ e c same. grind (int_laws, c, need_same b e.address same)) (λ e c other. omega (arith, c))
      h

-- Without a current endpoint nothing more is needed, and with one more missing any may be current.
pub forget-Counts :
    (k : ℕ) (current : Option ℕ) (eps : List GatewayEndpointWrapper)
    → Counts k current eps
    → Counts k none eps
forget-Counts k current eps h = All-map _ _ eps (λ e c. omega (arith, c)) h

pub recall-Counts :
    (k : ℕ) (current : Option ℕ) (eps : List GatewayEndpointWrapper)
    → Counts k none eps
    → Counts (k + 1) current eps
recall-Counts k current eps h =
    All-map _ _ eps (λ e c. grind (int_laws, c, need_le current e.address)) h

pub weaken-Counts :
    (k j : ℕ) (current : Option ℕ) (eps : List GatewayEndpointWrapper)
    → k ≤ j
    → Counts k current eps
    → Counts j current eps
weaken-Counts k j current eps le h = All-map _ _ eps (λ e c. grind (int_laws, c, le)) h

select_among-endpoints :
    (intn : ℕ → ℕ) (by : ℕ → List GatewayEndpointWrapper → Choice) (e : SelectError)
    (p : GatewayPool) (eps : List GatewayEndpointWrapper)
    → (select_among intn by e p eps).0.endpoints ≡ p.endpoints
unfolding select_among
select_among-endpoints intn by e p [] = refl
select_among-endpoints intn by e p (ep ∷ eps) = refl

pub select_endpoint-endpoints :
    (intn : ℕ → ℕ) (p : GatewayPool) → (select_endpoint intn p).0.endpoints ≡ p.endpoints
unfolding select_endpoint
select_endpoint-endpoints intn p =
    select_among-endpoints intn select_round_robin no_healthy_endpoints p (keep is_up p.endpoints)

pub select_for_retry-endpoints :
    (intn : ℕ → ℕ) (p : GatewayPool) → (select_for_retry intn p).0.endpoints ≡ p.endpoints
unfolding select_for_retry
select_for_retry-endpoints intn p = elim (Bool-cases (length (keep is_up p.endpoints) == 0)) [
  | inl none_up ↦ rw none_up (select_among-endpoints intn apply_priority no_endpoints p p.endpoints)
  | inr some_up ↦
      rw some_up
        (select_among-endpoints intn apply_priority no_endpoints p (keep is_up p.endpoints))
]

pub first_choice-endpoints :
    (intn : ℕ → ℕ) (p : GatewayPool) (s : GatewayPool × Result SelectError GatewayEndpointWrapper)
    → s.0.endpoints ≡ p.endpoints
    → (first_choice intn s).0.endpoints ≡ p.endpoints
first_choice-endpoints intn p (q, ok ep) e = e
first_choice-endpoints intn p (q, err panics) e = e
first_choice-endpoints intn p (q, err no_healthy_endpoints) e =
    select_for_retry-endpoints intn q ∙ e
first_choice-endpoints intn p (q, err no_endpoints) e = select_for_retry-endpoints intn q ∙ e
first_choice-endpoints intn p (q, err no_matching_tags) e = select_for_retry-endpoints intn q ∙ e

pub Result-cases :
    {X A : Type 0} (r : Result X A) → ((e : X) × (r ≡ err e)) ⊎ ((a : A) × (r ≡ ok a))
Result-cases (err e) = inl (e, refl)
Result-cases (ok a) = inr (a, refl)
