-- ===== src/Pool/Ledger.antt =====
-- The account of the pool's connections, by their identifiers.
use mcp_bridge.Prelude.{
  ℕ, ◌+◌, ◌<◌, ◌≤◌, ◌≡◌, refl, sym, subst, suc, Option, none, some, List, [], ◌∷◌, ◌++◌, arith,
  eq_iff, ltb, Bool-cases, inl, inr, length-append, length, if◌then◌else◌, String, str_eq, count_if,
}
use mcp_bridge.Prelude.Int.{pos, ◌+ℤ◌, ◌≤ℤ◌, int_laws}
use mcp_bridge.Pool.{
  Pool, PooledConn, create_connection, remove_connection, put_idle, remove_key, insert_key,
  delete_key, map_size, keys_of,
}

abbrev pub one : String → String → ℕ
one k i = if str_eq k i then 1 else 0

abbrev pub occurs : String → List String → ℕ
occurs i keys = count_if (λ k. str_eq k i) keys

abbrev pub occurs_in : String → List PooledConn → ℕ
occurs_in i [] = 0
occurs_in i (pc ∷ pcs) = one pc.id i + occurs_in i pcs

pub occurs_in-append :
    (i : String) (xs ys : List PooledConn)
    → occurs_in i (xs ++ ys) ≡ occurs_in i xs + occurs_in i ys
occurs_in-append i [] ys = omega arith
occurs_in-append i (x ∷ xs) ys = grind (arith, occurs_in-append i xs ys)

pub occurs-remove_key :
    (k i : String) (keys : List String)
    → occurs i (remove_key k keys) ≡ (if str_eq k i then 0 else occurs i keys)
unfolding remove_key
occurs-remove_key k i [] = ground arith
occurs-remove_key k i (j ∷ keys) =
    ground (arith, eq_iff k i, eq_iff j k, eq_iff j i, occurs-remove_key k i keys)

pub length-remove_key :
    (k : String) (keys : List String) → length (remove_key k keys) + occurs k keys ≡ length keys
unfolding remove_key
length-remove_key k [] = refl
length-remove_key k (j ∷ keys) = ground (arith, length-remove_key k keys)

pub occurs-insert_key :
    (k i : String) (keys : List String)
    → occurs k keys ≡ 0
    → occurs i (insert_key k keys) ≡ one k i + occurs i keys
unfolding insert_key
occurs-insert_key k i keys h = elim (Bool-cases (str_eq k i)) [
  | inl same ↦ rw (same, occurs-remove_key k i keys, sym ((eq_iff k i).0 same), h) (ground arith)
  | inr diff ↦ rw (diff, occurs-remove_key k i keys, diff) (omega arith)
]

pub length-insert_key :
    (k : String) (keys : List String)
    → occurs k keys ≡ 0
    → length (insert_key k keys) ≡ suc (length keys)
unfolding insert_key
length-insert_key k keys h = omega (arith, h, length-remove_key k keys)

-- The pool is open, `out` counts the connections that are not idle, the size is within its limit,
-- and the statistics fit, but that the number of idle connections may be too large.
abbrev pub IsKept : Pool → (String → ℕ) → Type 0
IsKept p out =
    (keys : List String) × (p.connections ≡ some keys)
    × ((i : String) → occurs i keys ≡ occurs_in i p.idle + out i)
    × ((i : String) → occurs i keys ≤ 1)
    × (length keys ≤ p.config.max_size)
    × (p.config.min_size ≤ p.config.max_size)
    × (p.total_connections ≡ pos (length keys))
    × (p.created_count ≡ p.closed_count + length keys)
    × (pos (length p.idle) ≤ℤ p.idle_connections)

pub IsKept-as :
    (p : Pool) (out out' : String → ℕ)
    → ((i : String) → out i ≡ out' i)
    → IsKept p out
    → IsKept p out'
IsKept-as p out out' same (keys, e, counts, most, size, order, total, made, idle) =
    (keys, e, (λ i. omega (arith, counts i, same i)), most, size, order, total, made, idle)

abbrev pub with_conn : PooledConn → (String → ℕ) → String → ℕ
with_conn pc out i = one pc.id i + out i

-- An identifier that no connection of the pool has, as a new UUID is.
abbrev pub IsFresh : Pool → String → Type 0
IsFresh p id = occurs id (keys_of p.connections) ≡ 0

pub one_self : (k : String) → one k k ≡ 1
one_self k = ground (arith, eq_iff k k)

-- A connection that is out is in the map once.
occurs_once :
    (p : Pool) (out : String → ℕ) (pc : PooledConn) (keys : List String)
    → ((i : String) → occurs i keys ≡ occurs_in i p.idle + with_conn pc out i)
    → ((i : String) → occurs i keys ≤ 1)
    → occurs pc.id keys ≡ 1
occurs_once p out pc keys counts most = omega (arith, counts pc.id, most pc.id, one_self pc.id)

pub remove_connection-IsKept :
    (p : Pool) (out : String → ℕ) (pc : PooledConn)
    → IsKept p (with_conn pc out)
    → IsKept (remove_connection p pc) out
unfolding remove_connection delete_key
remove_connection-IsKept p out pc (keys, e, counts, most, size, order, total, made, idle) =
    let once = occurs_once p out pc keys counts most in
    let removed = length-remove_key pc.id keys in
    (
      remove_key pc.id keys,
      rw e refl,
      (λ i. ground (arith, occurs-remove_key pc.id i keys, counts i, most i)),
      (λ i. ground (arith, occurs-remove_key pc.id i keys, most i)),
      omega (arith, removed, size),
      order,
      grind (int_laws, once, removed, total),
      omega (arith, once, removed, made),
      idle,
    )

pub put_idle-IsKept :
    (p : Pool) (out : String → ℕ) (pc : PooledConn)
    → IsKept p (with_conn pc out)
    → IsKept (put_idle p pc) out
unfolding put_idle
put_idle-IsKept p out pc (keys, e, counts, most, size, order, total, made, idle) =
    elim (Bool-cases (ltb (length p.idle) p.config.max_size)) [
      | inl room ↦ rw room (
        keys,
        e,
        (λ i. ground (arith, counts i, occurs_in-append i p.idle (pc ∷ []))),
        most,
        size,
        order,
        total,
        made,
        grind (int_laws, length-append p.idle (pc ∷ []), idle),
      )
      | inr full ↦ rw full (
          remove_connection-IsKept p out pc (keys, e, counts, most, size, order, total, made, idle))
    ]

-- What adding and removing connections leaves alone.
abbrev pub Same : Pool → Pool → Type 0
Same p p' =
    (p'.active_connections ≡ p.active_connections)
    × (p'.waiters ≡ p.waiters)
    × (p'.closed ≡ p.closed)
    × (p'.config ≡ p.config)

pub put_idle-Same : (p : Pool) (pc : PooledConn) → Same p (put_idle p pc)
unfolding put_idle remove_connection
put_idle-Same p pc = elim (Bool-cases (ltb (length p.idle) p.config.max_size)) [
  | inl room ↦ rw room (refl, refl, refl, refl)
  | inr full ↦ rw full (refl, refl, refl, refl)
]

pub put_idle-map_size :
    (p : Pool) (pc : PooledConn) → map_size (put_idle p pc).connections ≤ map_size p.connections
unfolding put_idle remove_connection delete_key
put_idle-map_size p pc = go p.connections refl
  where
    go :
        (m : Option (List String))
        → p.connections ≡ m
        → map_size (put_idle p pc).connections ≤ map_size p.connections
    go none e = ground (arith, e)
    go (some keys) e = rw (e, put_idle) (ground (arith, length-remove_key pc.id keys, e))

abbrev pub with_created : Option PooledConn → (String → ℕ) → String → ℕ
with_created none out = out
with_created (some pc) out = with_conn pc out

abbrev pub IsFreshAnswer : Pool → Option String → Type 0
IsFreshAnswer p none = Unit
IsFreshAnswer p (some id) = IsFresh p id

pub create_connection-IsKept :
    (p : Pool) (out : String → ℕ) (answer : Option String) (now : ℕ)
    → IsKept p out
    → IsFreshAnswer p answer
    → map_size p.connections < p.config.max_size
    → (p' : Pool) × (r : Option PooledConn) × (create_connection p answer now ≡ some (p', r))
      × Same p p'
      × (map_size p'.connections ≤ suc (map_size p.connections))
      × IsKept p' (with_created r out)
unfolding create_connection insert_key
create_connection-IsKept p out none now h fresh room = (
  record p { failed_count = p.failed_count + 1 },
  none,
  refl,
  (refl, refl, refl, refl),
  omega arith,
  h,
)
create_connection-IsKept p out (some id) now (keys, e, counts, most, size, order, total, made, idle)
      fresh room =
    let new = subst (λ m. occurs id (keys_of m) ≡ 0) e fresh in
    let size_is = length-insert_key id keys new in
    (
      record p {
        connections = some (insert_key id keys);
        created_count = p.created_count + 1;
        total_connections = p.total_connections +ℤ pos 1;
      },
      some (record { id = id; created_at = now; last_used_at = now; usage_count = 0 }),
      rw e refl,
      (refl, refl, refl, refl),
      rw e (omega (arith, size_is)),
      (
        insert_key id keys,
        refl,
        (λ i. omega (arith, occurs-insert_key id i keys new, counts i)),
        (λ i. ground (arith, occurs-insert_key id i keys new, most i, eq_iff id i)),
        ground (arith, size_is, room, e),
        order,
        grind (int_laws, size_is, total),
        omega (arith, size_is, made),
        idle,
      ),
    )
