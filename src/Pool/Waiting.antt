-- ===== src/Pool/Waiting.antt =====
-- The sections of a caller that acquires a connection.
use mcp_bridge.Prelude.{
  ℕ, ◌+◌, ◌≡◌, ◌==◌, refl, sym, ap, subst, ◌∙◌, Bool, false, not, Option, none, some, List, [], ◌∷◌,
  ◌++◌, arith, if_cases, inl, inr, ltb, length, String, keep, count_if-append,
}
use mcp_bridge.Prelude.Int.{int_laws}
use mcp_bridge.Pool.{Pool, PooledConn}
use mcp_bridge.Pool.Acquirer.{
  activate, handle_received, Acquired, got, create_failed, must_wait, pool_closed,
  acquire_connection,
}
use mcp_bridge.Pool.Clients.{
  World, other, is_in, take_mail, acquired, queue_request, received, wait_for_connection,
}
use mcp_bridge.Pool.Ledger.{IsKept-as, with_conn, IsFreshAnswer}
use mcp_bridge.Pool.Callers.{
  count, outside, places, IsOrdered, IsRunning, IsShut, IsSound, Sound, count-keep, Took,
  take_mail-Took,
}
use mcp_bridge.Pool.Exchange.{Account, acquire_connection-Account}

-- An event that leaves every channel where it is.
pub IsOrdered-as :
    (w w' : World)
    → ((t : ℕ) → places w' t ≡ places w t)
    → w'.next_channel ≡ w.next_channel
    → IsOrdered w
    → IsOrdered w'
IsOrdered-as w w' same next h t =
    let (most, none_after) = h t in
    (omega (arith, same t, most), λ le. same t ∙ none_after (omega (arith, le, next)))

-- The same channels, with other waiters in the same order.
pub places-as :
    (w : World) (q : Pool) (held : List PooledConn) (t : ℕ)
    → q.waiters ≡ w.pool.waiters
    → places (record w { pool = q; held = held }) t ≡ places w t
places-as w q held t e = omega (arith, ap (count t) e)

pub closed_not_open : (w : World) → IsShut w → ¬ (w.pool.closed ≡ false)
closed_not_open w (shut, _, _, _, _) is_open = cc

acquired-Sound :
    (w : World) (r : Pool × Acquired)
    → IsOrdered w
    → IsRunning w
    → Account w.pool (outside w) r
    → Sound (acquired w (some r))
unfolding acquired
acquired-Sound w (q, got pc) o (is_open, h, active) ((fw, fc, fg), more, k) =
    let w' = record w { pool = q; held = pc ∷ w.held } in
    (
      w',
      refl,
      (
        IsOrdered-as w w' (λ t. places-as w q (pc ∷ w.held) t fw) refl o,
        inl (
          fc ∙ is_open,
          IsKept-as q (with_conn pc (outside w)) (outside w') (λ i. omega arith) k,
          grind (int_laws, more, active),
        ),
      ),
    )
acquired-Sound w (q, create_failed) o (is_open, h, active) ((fw, fc, fg), same, k) =
    let w' = record w { pool = q } in
    (
      w',
      refl,
      (
        IsOrdered-as w w' (λ t. places-as w q w.held t fw) refl o,
        inl (fc ∙ is_open, k, same ∙ active),
      ),
    )
acquired-Sound w (q, pool_closed) o (is_open, h, active) ((fw, fc, fg), same, k) =
    let w' = record w { pool = q } in
    (
      w',
      refl,
      (
        IsOrdered-as w w' (λ t. places-as w q w.held t fw) refl o,
        inl (fc ∙ is_open, k, same ∙ active),
      ),
    )
acquired-Sound w (q, must_wait) o (is_open, h, active) ((fw, fc, fg), same, k) = (
  record w { pool = q; arriving = w.next_channel ∷ w.arriving; next_channel = w.next_channel + 1 },
  refl,
  ((λ t. ground (arith, o t, ap (count t) fw)), inl (fc ∙ is_open, k, same ∙ active)),
)

pub acquire-Sound :
    (w : World) (healthy : String → Bool) (answer : Option String) (now : ℕ)
    → IsSound w
    → IsFreshAnswer w.pool answer
    → Sound (acquired w (acquire_connection w.pool healthy answer now))
unfolding acquire_connection acquired
acquire-Sound w healthy answer now (o, inl (is_open, h, active)) fresh =
    let (a, e, account) =
      acquire_connection-Account w.pool healthy answer now (outside w) is_open h fresh in
    subst (λ r. Sound (acquired w r)) (sym e) (acquired-Sound w a o (is_open, h, active) account)
acquire-Sound w healthy answer now (o, inr (shut, ws, none_arrives, i, n)) fresh =
    if_cases (λ r. Sound (acquired w r)) w.pool.closed _ _
      (λ _. (w, refl, (o, inr (shut, ws, none_arrives, i, n)))) (λ is_open. absurd cc)

pub queue_request-Sound : (w : World) (t : ℕ) → IsSound w → Sound (queue_request w t)
unfolding queue_request
queue_request-Sound w t (o, inr (shut, ws, none_arrives, i, n)) =
    if_cases Sound (not (is_in t w.arriving)) _ _
      (λ away. (w, refl, (o, inr (shut, ws, none_arrives, i, n))))
      (λ here. absurd (ground (arith, here, ap (count t) none_arrives)))
queue_request-Sound w t (o, inl (is_open, h, active)) =
    let queued = record w {
      pool = record w.pool { waiters = w.pool.waiters ++ t ∷ [] };
      arriving = keep (other t) w.arriving;
      waiting = t ∷ w.waiting;
    } in
    if_cases Sound (not (is_in t w.arriving)) _ _ (λ away. (w, refl, (o, inl (is_open, h, active))))
      (λ here.
        if_cases Sound w.pool.closed _ _ (λ shut. absurd cc)
          (λ _.
            if_cases Sound (ltb (length w.pool.waiters) w.pool.config.max_size) _ _
              (λ room. (
                queued,
                refl,
                (
                  (λ u. ground (
                    arith,
                    here,
                    o u,
                    count-keep t u w.arriving,
                    count_if-append (λ v. v == u) w.pool.waiters (t ∷ []),
                  )),
                  inl (is_open, h, active),
                ),
              ))
              (λ full. (w, refl, (o, inl (is_open, h, active))))))

pub give_up-IsSound :
    (w : World) (t : ℕ)
    → IsSound w
    → IsSound
        (record w { arriving = keep (other t) w.arriving; waiting = keep (other t) w.waiting })
give_up-IsSound w t (o, c) = (
  (λ u. ground (arith, o u, count-keep t u w.arriving)),
  elim c [
    | inl running ↦ inl running
    | inr (shut, ws, none_arrives, i, n) ↦ inr (shut, ws, ap (keep (other t)) none_arrives, i, n)
  ],
)

received-IsSound :
    (w : World) (t now : ℕ) (r : Option (PooledConn × List (ℕ × PooledConn)))
    → IsSound w
    → Took t w.mail r
    → IsSound (received w t now r)
unfolding received Took handle_received activate
received-IsSound w t now none s h = if_cases IsSound (is_in t w.shut) _ _ (λ _. s) (λ _. s)
received-IsSound w t now (some (pc, ms)) (o, c) (h, k) = (
  (λ u. ground (arith, o u, h u)),
  elim c [
    | inl (is_open, kept, active) ↦ inl (
      is_open,
      IsKept-as w.pool (outside w) (outside (received w t now (some (pc, ms))))
          (λ i. omega (arith, k i)) kept,
      grind (int_laws, active),
    )
    | inr shut ↦ inr shut
  ],
)

pub wait_for_connection-IsSound :
    (w : World) (t now : ℕ) → IsSound w → IsSound (wait_for_connection w t now)
unfolding wait_for_connection
wait_for_connection-IsSound w t now s =
    if_cases IsSound (is_in t w.waiting) _ _
      (λ _. received-IsSound w t now (take_mail t w.mail) s (take_mail-Took t w.mail)) (λ _. s)
