-- ===== src/Pool/Callers.antt =====
-- When the pool and its callers are in order.
use mcp_bridge.Prelude.{
  ℕ, suc, ◌+◌, ◌-◌, ◌≤◌, ◌≡◌, ◌==◌, refl, ◌⊎◌, true, false, Option, none, some, List, [], ◌∷◌,
  arith, Bool-cases, inl, inr, length, if◌then◌else◌, String, str_eq, count_if, keep,
}
use mcp_bridge.Prelude.Int.{pos}
use mcp_bridge.Pool.{Pool, PooledConn, map_size}
use mcp_bridge.Pool.Clients.{
  World, Event, acquire, maintain_size, close_pool, other, take_held, take_mail, step, start,
}
use mcp_bridge.Pool.Ledger.{one, occurs_in, IsKept, IsFreshAnswer}
use mcp_bridge.Pool.Sections.{IsFreshRun}

abbrev pub count : ℕ → List ℕ → ℕ
count t xs = count_if (λ u. u == t) xs

abbrev pub mailed : ℕ → List (ℕ × PooledConn) → ℕ
mailed t [] = 0
mailed t ((u, pc) ∷ ms) = (if u == t then 1 else 0) + mailed t ms

abbrev pub occurs_mailed : String → List (ℕ × PooledConn) → ℕ
occurs_mailed i [] = 0
occurs_mailed i ((u, pc) ∷ ms) = one pc.id i + occurs_mailed i ms

-- The connections that are not idle: those that callers hold and those in a caller's channel.
abbrev pub outside : World → String → ℕ
outside w i = occurs_in i w.held + occurs_mailed i w.mail

abbrev pub places : World → ℕ → ℕ
places w t = count t w.arriving + count t w.pool.waiters + mailed t w.mail + count t w.shut

-- A channel is about to be queued, queued, full or closed, one of these at most, and new channels
-- are none of them.
abbrev pub IsOrdered : World → Type 0
IsOrdered w = (t : ℕ) → (places w t ≤ 1) × (w.next_channel ≤ t → places w t ≡ 0)

abbrev pub IsRunning : World → Type 0
IsRunning w =
    (w.pool.closed ≡ false)
    × IsKept w.pool (outside w)
    × (w.pool.active_connections ≡ pos (length w.held))

abbrev pub IsShut : World → Type 0
IsShut w =
    (w.pool.closed ≡ true)
    × (w.pool.waiters ≡ [])
    × (w.arriving ≡ [])
    × (w.pool.idle ≡ [])
    × (w.pool.connections ≡ none)

abbrev pub IsSound : World → Type 0
IsSound w = IsOrdered w × (IsRunning w ⊎ IsShut w)

-- What an event asks for: that `Create` answers with new identifiers, that the pool is not
-- maintained once it is closed, and that it is not closed while a caller is on the way into the
-- queue.
abbrev pub IsAllowed : World → Event → Type 0
IsAllowed w (acquire healthy answer now) = IsFreshAnswer w.pool answer
IsAllowed w (maintain_size create now) =
    (w.pool.closed ≡ false)
    × IsFreshRun (w.pool.config.min_size - map_size w.pool.connections) w.pool create now
IsAllowed w close_pool = w.arriving ≡ []
IsAllowed w e = Unit

abbrev pub AreAllowed : World → List Event → Type 0
AreAllowed w [] = Unit
AreAllowed w (e ∷ es) =
    IsAllowed w e × (elim (step w e) [ none ↦ Unit | some w' ↦ AreAllowed w' es ])

abbrev pub AreAllowedFrom : Option Pool → List Event → Type 0
AreAllowedFrom none es = Unit
AreAllowedFrom (some p) es = AreAllowed (start p) es

abbrev pub Sound : Option World → Type 0
Sound r = (w' : World) × (r ≡ some w') × IsSound w'

pub count-keep :
    (t u : ℕ) (xs : List ℕ) → count u (keep (other t) xs) ≡ (if t == u then 0 else count u xs)
count-keep t u [] = ground arith
count-keep t u (x ∷ xs) = ground (arith, count-keep t u xs)

pub take_mail-none : (t : ℕ) (ms : List (ℕ × PooledConn)) → mailed t ms ≡ 0 → take_mail t ms ≡ none
unfolding take_mail
take_mail-none t [] h = refl
take_mail-none t ((u, pc) ∷ ms) h = ground (arith, take_mail-none t ms)

-- Taking a connection out, with what the two counts become.
unfoldable pub Took :
    ℕ → List (ℕ × PooledConn) → Option (PooledConn × List (ℕ × PooledConn)) → Type 0
Took t ms none = Unit
Took t ms (some (pc, rest)) =
    ((u : ℕ) → mailed u ms ≡ (if t == u then 1 else 0) + mailed u rest)
    × ((i : String) → occurs_mailed i ms ≡ one pc.id i + occurs_mailed i rest)

Took-cons :
    (t u : ℕ) (pc : PooledConn) (ms : List (ℕ × PooledConn))
    (r : Option (PooledConn × List (ℕ × PooledConn)))
    → (u == t) ≡ false
    → Took t ms r
    → Took t
        ((u, pc) ∷ ms)
        (elim r [ none ↦ none | some (found, others) ↦ some (found, (u, pc) ∷ others) ])
unfolding Took
Took-cons t u pc ms none e h = tt
Took-cons t u pc ms (some (found, others)) e (h, k) =
    ((λ v. omega (arith, h v)), (λ i. omega (arith, k i)))

pub take_mail-Took : (t : ℕ) (ms : List (ℕ × PooledConn)) → Took t ms (take_mail t ms)
unfolding take_mail Took
take_mail-Took t [] = tt
take_mail-Took t ((u, pc) ∷ ms) = elim (Bool-cases (u == t)) [
  | inl here ↦ rw here ((λ v. ground (arith, here)), (λ i. refl))
  | inr there ↦ rw there (Took-cons t u pc ms (take_mail t ms) there (take_mail-Took t ms))
]

unfoldable pub Held : List PooledConn → Option (PooledConn × List PooledConn) → Type 0
Held pcs none = Unit
Held pcs (some (pc, rest)) =
    ((i : String) → occurs_in i pcs ≡ one pc.id i + occurs_in i rest)
    × (length pcs ≡ suc (length rest))

Held-cons :
    (pc : PooledConn) (pcs : List PooledConn) (r : Option (PooledConn × List PooledConn))
    → Held pcs r
    → Held (pc ∷ pcs) (elim r [ none ↦ none | some (found, others) ↦ some (found, pc ∷ others) ])
unfolding Held
Held-cons pc pcs none h = tt
Held-cons pc pcs (some (found, others)) (h, k) = ((λ i. omega (arith, h i)), omega (arith, k))

pub take_held-Held : (id : String) (pcs : List PooledConn) → Held pcs (take_held id pcs)
unfolding take_held Held
take_held-Held id [] = tt
take_held-Held id (pc ∷ pcs) = elim (Bool-cases (str_eq pc.id id)) [
  | inl here ↦ rw here ((λ i. refl), refl)
  | inr there ↦ rw there (Held-cons pc pcs (take_held id pcs) (take_held-Held id pcs))
]
