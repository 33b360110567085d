-- ===== src/Pool/Sections.antt =====
-- The account of the connections over the sections of the pool.
use mcp_bridge.Prelude.{
  ℕ, zero, suc, ◌+◌, ◌-◌, ◌≤◌, ◌≡◌, refl, sym, subst, ◌∙◌, Bool, false, Option, none, some, List,
  [], ◌∷◌, arith, Bool-cases, inl, inr, leb, length, if◌then◌else◌, String,
}
use mcp_bridge.Prelude.Int.{pos, ◌-ℤ◌, int_laws}
use mcp_bridge.Pool.{
  RawConfig, Pool, PooledConn, create_connection, remove_connection, map_size, put_created, fill,
  maintain, new_pool, is_valid_connection, create_pool_struct, validate_and_normalize, positive_or,
}
use mcp_bridge.Pool.Acquirer.{check_one, process_checked, check_health}
use mcp_bridge.Pool.Ledger.{
  occurs_in, IsKept, IsKept-as, Same, with_conn, with_created, IsFreshAnswer,
  remove_connection-IsKept, put_idle-IsKept, put_idle-Same, put_idle-map_size,
  create_connection-IsKept,
}

-- The answers of `Create` in a loop are new when they are made.
abbrev pub Afterwards : (Pool → Type 0) → Option (Pool × Option PooledConn) → Type 0
Afterwards P none = Unit
Afterwards P (some (p, made)) = P (put_created p made)

abbrev pub IsFreshRun : ℕ → Pool → (ℕ → Option String) → ℕ → Type 0
IsFreshRun zero p create now = Unit
IsFreshRun (suc n) p create now =
    IsFreshAnswer p (create n)
    × Afterwards (λ q. IsFreshRun n q create now) (create_connection p (create n) now)

put_created-IsKept :
    (p : Pool) (made : Option PooledConn) (out : String → ℕ)
    → IsKept p (with_created made out)
    → IsKept (put_created p made) out
      × Same p (put_created p made)
      × (map_size (put_created p made).connections ≤ map_size p.connections)
unfolding put_created
put_created-IsKept p none out h = (h, (refl, refl, refl, refl), omega arith)
put_created-IsKept p (some pc) out h =
    (put_idle-IsKept p out pc h, put_idle-Same p pc, put_idle-map_size p pc)

pub Same-trans : (p q r : Pool) → Same p q → Same q r → Same p r
Same-trans p q r (a, b, c, d) (a', b', c', d') = (a' ∙ a, b' ∙ b, c' ∙ c, d' ∙ d)

pub fill-IsKept :
    (n : ℕ) (p : Pool) (create : ℕ → Option String) (now : ℕ) (out : String → ℕ)
    → IsKept p out
    → n + map_size p.connections ≤ p.config.max_size
    → IsFreshRun n p create now
    → (q : Pool) × (fill p n create now ≡ some q) × Same p q × IsKept q out
unfolding fill
fill-IsKept zero p create now out h room fresh = (p, refl, (refl, refl, refl, refl), h)
fill-IsKept (suc n) p create now out h room (new, fresh) =
    let (p', made, e, same, grown, h') =
      create_connection-IsKept p out (create n) now h new (omega arith) in
    let p'' = put_created p' made in
    let (h'', same', less) = put_created-IsKept p' made out h' in
    let same'' = Same-trans p p' p'' same same' in
    let room' =
      subst (λ c. n + map_size p''.connections ≤ c.max_size) (sym same''.3)
        (omega (arith, room, grown, less)) in
    let fresh' = subst (Afterwards (λ q. IsFreshRun n q create now)) e fresh in
    let (q, eq, last, hq) = fill-IsKept n p'' create now out h'' room' fresh' in
    (q, rw (fill, e) eq, Same-trans p p'' q same'' last, hq)

pub maintain-IsKept :
    (p : Pool) (create : ℕ → Option String) (now : ℕ) (out : String → ℕ)
    → IsKept p out
    → IsFreshRun (p.config.min_size - map_size p.connections) p create now
    → (q : Pool) × (maintain p create now ≡ some q) × Same p q × IsKept q out
unfolding maintain
maintain-IsKept p create now out h fresh =
    let order = h.5 in
    elim (Bool-cases (leb p.config.min_size (map_size p.connections))) [
      | inl enough ↦ (p, rw enough refl, (refl, refl, refl, refl), h)
      | inr few ↦
          let (q, e, same, hq) =
            fill-IsKept (p.config.min_size - map_size p.connections) p create now out h
              (ground (arith, few, order)) fresh in
          (q, rw few e, same, hq)
    ]

validate_and_normalize-order :
    (raw : RawConfig) → let c = validate_and_normalize raw in (c.min_size ≤ c.max_size)
unfolding validate_and_normalize positive_or
validate_and_normalize-order raw = ground arith

pub new_pool-IsKept :
    (raw : RawConfig) (create : ℕ → Option String) (now : ℕ)
    → let c = validate_and_normalize raw in
      IsFreshRun c.min_size (create_pool_struct c) create now
      → (p : Pool) × (new_pool raw create now ≡ some p)
        × Same (create_pool_struct c) p
        × IsKept p (λ i. 0)
unfolding new_pool create_pool_struct
new_pool-IsKept raw create now fresh =
    let c = validate_and_normalize raw in
    let order = validate_and_normalize-order raw in
    fill-IsKept c.min_size (create_pool_struct c) create now (λ i. 0)
      ([], refl, (λ i. refl), (λ i. omega arith), omega arith, order, refl, refl, omega arith)
      (omega (arith, order)) fresh

remove-Same : (p : Pool) (pc : PooledConn) → Same p (remove_connection p pc)
unfolding remove_connection
remove-Same p pc = (refl, refl, refl, refl)

check_one-IsKept :
    (p : Pool) (pc : PooledConn) (healthy : String → Bool) (now : ℕ) (out : String → ℕ)
    → IsKept p (with_conn pc out)
    → IsKept (check_one p pc healthy now) out × Same p (check_one p pc healthy now)
unfolding check_one
check_one-IsKept p pc healthy now out h = elim (Bool-cases (is_valid_connection p healthy pc now)) [
  | inl valid ↦ rw valid (put_idle-IsKept p out pc h, put_idle-Same p pc)
  | inr stale ↦ rw stale (remove_connection-IsKept p out pc h, remove-Same p pc)
]

process_checked-IsKept :
    (p : Pool) (pcs : List PooledConn) (healthy : String → Bool) (now : ℕ) (out : String → ℕ)
    → IsKept p (λ i. occurs_in i pcs + out i)
    → IsKept (process_checked p pcs healthy now) out × Same p (process_checked p pcs healthy now)
unfolding process_checked
process_checked-IsKept p [] healthy now out h =
    (IsKept-as p (λ i. 0 + out i) out (λ i. omega arith) h, (refl, refl, refl, refl))
process_checked-IsKept p (pc ∷ pcs) healthy now out k =
    let out' : String → ℕ = λ i. occurs_in i pcs + out i in
    let h =
      IsKept-as p (λ i. occurs_in i (pc ∷ pcs) + out i) (with_conn pc out') (λ i. omega arith) k in
    let p' = check_one p pc healthy now in
    let (h', s) = check_one-IsKept p pc healthy now out' h in
    let (h'', s') = process_checked-IsKept p' pcs healthy now out h' in
    (h'', Same-trans p p' (process_checked p' pcs healthy now) s s')

pub check_health-IsKept :
    (p : Pool) (healthy : String → Bool) (now : ℕ) (out : String → ℕ)
    → p.closed ≡ false
    → IsKept p out
    → IsKept (check_health p healthy now) out × Same p (check_health p healthy now)
unfolding check_health
check_health-IsKept p healthy now out is_open
      (keys, e, counts, most, size, order, total, made, idle) =
    let drained = record p {
      idle = [];
      idle_connections = p.idle_connections -ℤ pos (length p.idle);
    } in
    subst
      (λ b.
        let q = if b then p else process_checked drained p.idle healthy now in
        IsKept q out × Same p q)
      (sym is_open)
      (process_checked-IsKept drained p.idle healthy now out (
        keys,
        e,
        (λ i. omega (arith, counts i)),
        most,
        size,
        order,
        total,
        made,
        grind (int_laws, idle),
      ))
