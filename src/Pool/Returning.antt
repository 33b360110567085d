-- ===== src/Pool/Returning.antt =====
-- The account of the connections as they are released.
use mcp_bridge.Prelude.{
  ℕ, ◌≡◌, refl, sym, subst, Bool, false, Option, none, some, List, [], ◌∷◌, ◌++◌, Bool-cases, inl,
  inr, if◌then◌else◌, String,
}
use mcp_bridge.Prelude.Int.{pos, ◌-ℤ◌}
use mcp_bridge.Pool.{Pool, PooledConn, remove_connection, is_valid_connection}
use mcp_bridge.Pool.Acquirer.{pass_on, release}
use mcp_bridge.Pool.Ledger.{
  IsKept, with_conn, remove_connection-IsKept, put_idle-IsKept, put_idle-Same,
}
use mcp_bridge.Pool.Exchange.{KeepsQueue}

-- A connection that is released is out of the pool before, and after if it is handed to a waiter.
abbrev pub Returned : Pool → PooledConn → (String → ℕ) → Pool × Option ℕ → Type 0
Returned p pc out (q, none) =
    KeepsQueue p q × (q.active_connections ≡ p.active_connections) × IsKept q out
Returned p pc out (q, some t) =
    (p.waiters ≡ t ∷ q.waiters)
    × (q.closed ≡ p.closed)
    × (q.config ≡ p.config)
    × (q.active_connections ≡ p.active_connections)
    × IsKept q (with_conn pc out)

pass_on-Returned :
    (p : Pool) (pc : PooledConn) (ws : List ℕ) (out : String → ℕ)
    → p.waiters ≡ ws
    → IsKept p (with_conn pc out)
    → Returned p pc out (pass_on p pc ws)
unfolding pass_on
pass_on-Returned p pc [] out e h =
    let (a, w, c, g) = put_idle-Same p pc in ((w, c, g), a, put_idle-IsKept p out pc h)
pass_on-Returned p pc (w ∷ ws) out e h = (e, refl, refl, refl, h)

pub release-Returned :
    (p : Pool) (pc : PooledConn) (healthy : String → Bool) (now : ℕ) (out : String → ℕ)
    → p.closed ≡ false
    → IsKept p (with_conn pc out)
    → Returned
        (record p { active_connections = p.active_connections -ℤ pos 1 })
        pc
        out
        (release p pc healthy now)
unfolding release remove_connection
release-Returned p pc healthy now out is_open h =
    let p' = record p { active_connections = p.active_connections -ℤ pos 1 } in
    subst
      (λ b. Returned p' pc out (
        if b
        then (record p { close_calls = p.close_calls ++ pc.id ∷ [] }, none)
        else if is_valid_connection p' healthy pc now
        then pass_on p' pc p'.waiters
        else (remove_connection p' pc, none)))
      (sym is_open)
      (elim (Bool-cases (is_valid_connection p' healthy pc now)) [
        | inl valid ↦ rw valid (pass_on-Returned p' pc p'.waiters out refl h)
        | inr stale ↦ rw stale ((refl, refl, refl), refl, remove_connection-IsKept p' out pc h)
      ])
