-- ===== src/Pool/Exchange.antt =====
-- The account of the connections as they are acquired.
use mcp_bridge.Prelude.{
  ℕ, ◌+◌, ◌≡◌, refl, sym, ap, subst, ◌∙◌, Bool, false, Option, none, some, List, [], ◌∷◌, arith,
  Bool-cases, inl, inr, ltb, if◌then◌else◌, String,
}
use mcp_bridge.Prelude.Int.{pos, ◌+ℤ◌, int_laws}
use mcp_bridge.Pool.{
  Pool, PooledConn, remove_connection, map_size, delete_key, keys_of, is_valid_connection,
}
use mcp_bridge.Pool.Acquirer.{
  activate, use_idle, receive_idle, try_get_idle_connection, Acquired, got, create_failed,
  must_wait, pool_closed, count_active, try_create_new_connection, or_create, acquire_connection,
}
use mcp_bridge.Pool.Ledger.{
  IsKept, with_conn, with_created, IsFreshAnswer, remove_connection-IsKept,
  create_connection-IsKept, occurs-remove_key, occurs,
}

abbrev pub KeepsQueue : Pool → Pool → Type 0
KeepsQueue p q = (q.waiters ≡ p.waiters) × (q.closed ≡ p.closed) × (q.config ≡ p.config)

-- The pool before, the pool after, the connections that are out before, and the connection got.
abbrev pub Tried : Pool → (String → ℕ) → Pool × Option PooledConn → Type 0
Tried p out (q, none) =
    KeepsQueue p q
    × (q.active_connections ≡ p.active_connections)
    × IsKept q out
    × ((answer : Option String) → IsFreshAnswer p answer → IsFreshAnswer q answer)
Tried p out (q, some pc) =
    KeepsQueue p q
    × (q.active_connections ≡ p.active_connections +ℤ pos 1)
    × IsKept q (with_conn pc out)

IsFreshAnswer-remove :
    (p : Pool) (pc : PooledConn) (answer : Option String)
    → IsFreshAnswer p answer
    → IsFreshAnswer (remove_connection p pc) answer
unfolding remove_connection delete_key
IsFreshAnswer-remove p pc none h = tt
IsFreshAnswer-remove p pc (some id) h = go p.connections h
  where
    go :
        (m : Option (List String))
        → occurs id (keys_of m) ≡ 0
        → occurs id (keys_of (delete_key pc.id m)) ≡ 0
    go none h = h
    go (some keys) h = ground (arith, occurs-remove_key pc.id id keys, h)

use_idle-Tried :
    (p : Pool) (healthy : String → Bool) (now : ℕ) (pc : PooledConn) (rest : List PooledConn)
    (out : String → ℕ)
    → IsKept (record p { idle = pc ∷ rest }) out
    → Tried p out (use_idle (record p { idle = rest }) healthy now pc)
unfolding use_idle activate
use_idle-Tried p healthy now pc rest out (keys, e, counts, most, size, order, total, made, idle) =
    let p' = record p { idle = rest } in
    elim (Bool-cases (is_valid_connection p' healthy pc now)) [
      | inl valid ↦ rw valid (
        (refl, refl, refl),
        refl,
        (
          keys,
          e,
          (λ i. omega (arith, counts i)),
          most,
          size,
          order,
          total,
          made,
          grind (int_laws, idle),
        ),
      )
      | inr stale ↦ rw stale (
        (refl, refl, refl),
        refl,
        remove_connection-IsKept p' out pc (
          keys,
          e,
          (λ i. omega (arith, counts i)),
          most,
          size,
          order,
          total,
          made,
          omega (arith, idle),
        ),
        IsFreshAnswer-remove p' pc,
      )
    ]

receive_idle-Tried :
    (p : Pool) (healthy : String → Bool) (now : ℕ) (xs : List PooledConn) (out : String → ℕ)
    → IsKept (record p { idle = xs }) out
    → IsKept p out
    → Tried p out (receive_idle p healthy now xs)
unfolding receive_idle
receive_idle-Tried p healthy now [] out k h = ((refl, refl, refl), refl, h, λ answer fresh. fresh)
receive_idle-Tried p healthy now (pc ∷ rest) out k h = use_idle-Tried p healthy now pc rest out k

-- The same, of what `AcquireConnection` comes to.
abbrev pub Account : Pool → (String → ℕ) → Pool × Acquired → Type 0
Account p out (q, got pc) = Tried p out (q, some pc)
Account p out (q, create_failed) =
    KeepsQueue p q × (q.active_connections ≡ p.active_connections) × IsKept q out
Account p out (q, must_wait) =
    KeepsQueue p q × (q.active_connections ≡ p.active_connections) × IsKept q out
Account p out (q, pool_closed) =
    KeepsQueue p q × (q.active_connections ≡ p.active_connections) × IsKept q out

count_active-Account :
    (p q : Pool) (made : Option PooledConn) (out : String → ℕ)
    → KeepsQueue p q
    → q.active_connections ≡ p.active_connections
    → IsKept q (with_created made out)
    → Account p out (count_active (q, made))
unfolding count_active
count_active-Account p q none out f active h = (f, active, h)
count_active-Account p q (some pc) out f active h = (f, ap (λ a. a +ℤ pos 1) active, h)

try_create-Account :
    (p q : Pool) (out : String → ℕ) (answer : Option String) (now : ℕ)
    → KeepsQueue p q
    → q.active_connections ≡ p.active_connections
    → IsKept q out
    → IsFreshAnswer q answer
    → (r : Pool × Acquired) × (try_create_new_connection q answer now ≡ some r) × Account p out r
unfolding try_create_new_connection
try_create-Account p q out answer now (fw, fc, fg) active h fresh =
    elim (Bool-cases (ltb (map_size q.connections) q.config.max_size)) [
      | inr full ↦ ((q, must_wait), rw full refl, ((fw, fc, fg), active, h))
      | inl room ↦
          let (q', made, e, (a, w, c, g), grown, h') =
            create_connection-IsKept q out answer now h fresh (ground (arith, room)) in
          let frame : KeepsQueue p q' = (w ∙ fw, c ∙ fc, g ∙ fg) in
          (
            count_active (q', made),
            rw (room, e) refl,
            count_active-Account p q' made out frame (a ∙ active) h',
          )
    ]

or_create-Account :
    (p : Pool) (r : Pool × Option PooledConn) (out : String → ℕ) (answer : Option String) (now : ℕ)
    → Tried p out r
    → IsFreshAnswer p answer
    → (a : Pool × Acquired) × (or_create answer now r ≡ some a) × Account p out a
unfolding or_create
or_create-Account p (q, some pc) out answer now t fresh = ((q, got pc), refl, t)
or_create-Account p (q, none) out answer now (f, active, h, newer) fresh =
    try_create-Account p q out answer now f active h (newer answer fresh)

Account-waited :
    (p : Pool) (n : ℕ) (out : String → ℕ) (a : Pool × Acquired)
    → Account (record p { wait_count = n }) out a
    → Account p out a
Account-waited p n out (q, got pc) h = h
Account-waited p n out (q, create_failed) h = h
Account-waited p n out (q, must_wait) h = h
Account-waited p n out (q, pool_closed) h = h

pub acquire_connection-Account :
    (p : Pool) (healthy : String → Bool) (answer : Option String) (now : ℕ) (out : String → ℕ)
    → p.closed ≡ false
    → IsKept p out
    → IsFreshAnswer p answer
    → (a : Pool × Acquired) × (acquire_connection p healthy answer now ≡ some a) × Account p out a
unfolding acquire_connection try_get_idle_connection
acquire_connection-Account p healthy answer now out is_open h fresh =
    let waiting = record p { wait_count = p.wait_count + 1 } in
    let found = try_get_idle_connection waiting healthy now in
    let tried = receive_idle-Tried waiting healthy now p.idle out h h in
    let (a, e, account) = or_create-Account waiting found out answer now tried fresh in
    (
      a,
      subst (λ b. (if b then some (p, pool_closed) else or_create answer now found) ≡ some a)
          (sym is_open) e,
      Account-waited p (p.wait_count + 1) out a account,
    )
