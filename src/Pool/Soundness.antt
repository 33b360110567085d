-- ===== src/Pool/Soundness.antt =====
-- The pool and its callers over any sequence of sections.
use mcp_bridge.Prelude.{
  ℕ, ◌≡◌, ◌==◌, refl, sym, ap, subst, ◌∙◌, Bool, true, false, Option, none, some, List, [], ◌∷◌,
  ◌++◌, arith, if_cases, inl, inr, length, String, keep, map, count_if-append,
}
use mcp_bridge.Prelude.Int.{pos, ◌-ℤ◌, int_laws}
use mcp_bridge.Pool.{
  RawConfig, Pool, PooledConn, keys_of, create_pool_struct, validate_and_normalize, new_pool,
  maintain,
}
use mcp_bridge.Pool.Acquirer.{release, check_health, close, conn_id}
use mcp_bridge.Pool.Clients.{
  World, Event, acquire, enqueue, give_up, receive, release_held, maintain_size, health_check,
  close_pool, other, is_in, take_held, deliver, wait_for_connection, released, with_pool, step,
  start, run, run_from,
}
use mcp_bridge.Pool.Ledger.{IsKept-as, with_conn}
use mcp_bridge.Pool.Sections.{IsFreshRun, maintain-IsKept, new_pool-IsKept, check_health-IsKept}
use mcp_bridge.Pool.Callers.{
  count, outside, IsOrdered, IsSound, IsAllowed, AreAllowed, AreAllowedFrom, Sound, take_mail-none,
  Held, take_held-Held,
}
use mcp_bridge.Pool.Returning.{Returned, release-Returned}
use mcp_bridge.Pool.Waiting.{
  IsOrdered-as, places-as, closed_not_open, acquire-Sound, queue_request-Sound, give_up-IsSound,
  wait_for_connection-IsSound,
}

-- `Release` finds room in the channel of the waiter it hands a connection to.
deliver-Sound :
    (w : World) (p : Pool) (r : Pool × Option ℕ) (pc : PooledConn)
    → IsOrdered w
    → w.pool.waiters ≡ p.waiters
    → p.closed ≡ false
    → p.active_connections ≡ pos (length w.held)
    → Returned p pc (outside w) r
    → Sound (deliver w r pc)
unfolding deliver
deliver-Sound w p (q, none) pc o ws is_open active ((fw, fc, fg), same, k) =
    let w' = record w { pool = q } in
    (
      w',
      refl,
      (
        IsOrdered-as w w' (λ t. places-as w q w.held t (fw ∙ sym ws)) refl o,
        inl (fc ∙ is_open, k, same ∙ active),
      ),
    )
deliver-Sound w p (q, some t) pc o ws is_open active (fw, fc, fg, same, k) =
    let w' = record w { pool = q; mail = (t, pc) ∷ w.mail } in
    let (most, _) = o t in
    let queued = ap (count t) (ws ∙ fw) in
    let empty = take_mail-none t w.mail (ground (arith, most, queued)) in
    if_cases Sound (is_in t w.shut) _ _ (λ shut. absurd (ground (arith, most, queued, shut)))
      (λ _. (
        w',
        rw empty refl,
        (
          (λ u. ground (arith, o u, ap (count u) (ws ∙ fw))),
          inl (
            fc ∙ is_open,
            IsKept-as q (with_conn pc (outside w)) (outside w') (λ i. omega arith) k,
            same ∙ active,
          ),
        ),
      ))

released-Sound :
    (w : World) (healthy : String → Bool) (now : ℕ) (r : Option (PooledConn × List PooledConn))
    → IsSound w
    → Held w.held r
    → Sound (released w healthy now r)
unfolding released Held release deliver
released-Sound w healthy now none s h = (w, refl, s)
released-Sound w healthy now (some (pc, held)) (o, inl (is_open, k, active)) (h, n) =
    let w' = record w { held = held } in
    let p' = record w.pool { active_connections = w.pool.active_connections -ℤ pos 1 } in
    let kept =
      IsKept-as w.pool (outside w) (with_conn pc (outside w')) (λ i. omega (arith, h i)) k in
    deliver-Sound w' p' (release w.pool pc healthy now) pc (IsOrdered-as w w' (λ t. refl) refl o)
      refl is_open (grind (int_laws, active, n))
      (release-Returned w.pool pc healthy now (outside w') is_open kept)
released-Sound w healthy now (some (pc, held)) (o, inr s) h =
    if_cases (λ r. Sound (deliver (record w { held = held }) r pc)) w.pool.closed _ _
      (λ _. (
        record w {
          held = held;
          pool = record w.pool { close_calls = w.pool.close_calls ++ pc.id ∷ [] };
        },
        refl,
        (o, inr s),
      ))
      (λ is_open. absurd (closed_not_open w s is_open))

maintain-Sound :
    (w : World) (create : ℕ → Option String) (now : ℕ)
    → IsSound w
    → IsAllowed w (maintain_size create now)
    → Sound (with_pool w (maintain w.pool create now))
unfolding with_pool
maintain-Sound w create now (o, inr s) (is_open, fresh) = absurd (closed_not_open w s is_open)
maintain-Sound w create now (o, inl (_, k, active)) (is_open, fresh) =
    let (q, e, (a, ws, c, g), h) = maintain-IsKept w.pool create now (outside w) k fresh in
    let w' = record w { pool = q } in
    (
      w',
      rw e refl,
      (IsOrdered-as w w' (λ t. places-as w q w.held t ws) refl o, inl (c ∙ is_open, h, a ∙ active)),
    )

check_health-IsSound :
    (w : World) (healthy : String → Bool) (now : ℕ)
    → IsSound w
    → IsSound (record w { pool = check_health w.pool healthy now })
unfolding check_health
check_health-IsSound w healthy now (o, inr s) =
    if_cases (λ p. IsSound (record w { pool = p })) w.pool.closed _ _ (λ _. (o, inr s))
      (λ is_open. absurd (closed_not_open w s is_open))
check_health-IsSound w healthy now (o, inl (is_open, k, active)) =
    let p = check_health w.pool healthy now in
    let w' = record w { pool = p } in
    let (h, (a, ws, c, g)) = check_health-IsKept w.pool healthy now (outside w) is_open k in
    (IsOrdered-as w w' (λ t. places-as w p w.held t ws) refl o, inl (c ∙ is_open, h, a ∙ active))

close_pool-Sound : (w : World) → IsSound w → w.arriving ≡ [] → Sound (step w close_pool)
unfolding step close
close_pool-Sound w (o, inr s) none_arrives =
    if_cases
      (λ (r : Pool × List ℕ).
        let (p, channels) = r in Sound (some (record w { pool = p; shut = channels ++ w.shut })))
      w.pool.closed _ _ (λ _. (w, refl, (o, inr s)))
      (λ is_open. absurd (closed_not_open w s is_open))
close_pool-Sound w (o, inl (is_open, k, active)) none_arrives =
    let closed_pool = record w.pool {
      closed = true;
      connections = none;
      idle = [];
      waiters = [];
      close_calls = w.pool.close_calls ++ (map conn_id w.pool.idle ++ keys_of w.pool.connections);
    } in
    if_cases
      (λ (r : Pool × List ℕ).
        let (p, channels) = r in Sound (some (record w { pool = p; shut = channels ++ w.shut })))
      w.pool.closed _ _ (λ shut. absurd cc)
      (λ _. (
        record w { pool = closed_pool; shut = w.pool.waiters ++ w.shut },
        refl,
        (
          (λ t. ground (arith, o t, count_if-append (λ v. v == t) w.pool.waiters w.shut)),
          inr (refl, refl, none_arrives, refl, refl),
        ),
      ))

step-Sound : (w : World) (e : Event) → IsSound w → IsAllowed w e → Sound (step w e)
unfolding step
step-Sound w (acquire healthy answer now) s fresh = acquire-Sound w healthy answer now s fresh
step-Sound w (enqueue t) s tt = queue_request-Sound w t s
step-Sound w (give_up t) s tt = (
  record w { arriving = keep (other t) w.arriving; waiting = keep (other t) w.waiting },
  refl,
  give_up-IsSound w t s,
)
step-Sound w (receive t now) s tt =
    (wait_for_connection w t now, refl, wait_for_connection-IsSound w t now s)
step-Sound w (release_held id healthy now) s tt =
    released-Sound w healthy now (take_held id w.held) s (take_held-Held id w.held)
step-Sound w (maintain_size create now) s allowed = maintain-Sound w create now s allowed
step-Sound w (health_check healthy now) s tt = (
  record w { pool = check_health w.pool healthy now },
  refl,
  check_health-IsSound w healthy now s,
)
step-Sound w close_pool s none_arrives = close_pool-Sound w s none_arrives

run-Sound : (es : List Event) (w : World) → IsSound w → AreAllowed w es → Sound (run w es)
unfolding run
run-Sound [] w s allowed = (w, refl, s)
run-Sound (e ∷ es) w s (allowed, later) =
    let (w', eq, s') = step-Sound w e s allowed in
    subst (λ r. Sound (elim r [ none ↦ none | some v ↦ run v es ])) (sym eq)
      (run-Sound es w' s' (subst (λ r. elim r [ none ↦ Unit | some v ↦ AreAllowed v es ]) eq later))

-- Sections that run one at a time, each whole: an `Acquire` up to its wait, with its test of the
-- size and the creation, each later step of it, a `Release`, a round of maintenance or of health
-- checks, a `Close`. Events that `NewPool` and any sequence of these after it are allowed: every
-- `Create` answers with an identifier that no connection of the pool has, maintenance does not run
-- once the pool is closed, and `Close` does not run while a caller is on its way into the queue.
-- Then no section panics or blocks for ever, `Release` to a waiter included; while the pool is open
-- it has at most MaxSize connections, each of them idle, held by one caller or in one caller's
-- channel, ActiveConnections is the number that callers hold, TotalConnections and the counts of
-- created and closed ones fit the map, and IdleConnections is at least the number of idle ones.
pub run_new-Sound :
    (raw : RawConfig) (create : ℕ → Option String) (now : ℕ) (es : List Event)
    → IsFreshRun
        (validate_and_normalize raw).min_size
        (create_pool_struct (validate_and_normalize raw))
        create
        now
    → AreAllowedFrom (new_pool raw create now) es
    → Sound (run_from (new_pool raw create now) es)
unfolding create_pool_struct start run_from run
run_new-Sound raw create now es fresh allowed =
    let (p, e, (a, ws, c, g), h) = new_pool-IsKept raw create now fresh in
    subst (λ r. Sound (run_from r es)) (sym e)
      (run-Sound es (start p) ((λ t. ground (arith, ap (count t) ws)), inl (c, h, a))
        (subst (λ r. AreAllowedFrom r es) e allowed))
