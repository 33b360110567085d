-- ===== src/Pool/Overlapping.antt =====
-- Callers of `Acquire` that overlap: `canCreateNewConnection` and `createConnection` take the
-- pool's lock one after the other, so that several callers can see room before one of them has
-- created.
use mcp_bridge.Prelude.{
  ℕ, ◌+◌, ◌≡◌, ◌≢◌, refl, true, Option, none, some, List, [], ◌∷◌, All, arith, eq_iff, length,
  String,
}
use mcp_bridge.Prelude.Int.{pos, ◌+ℤ◌}
use mcp_bridge.Pool.{Pool, create_connection, map_size, insert_key}
use mcp_bridge.Pool.Acquirer.{can_create_new_connection}
use mcp_bridge.Pool.Ledger.{occurs, length-insert_key, occurs-insert_key}

-- The callers that have seen room create one after the other, with what `Create` answers each.
unfoldable pub create_each : Pool → List String → ℕ → Option Pool
create_each p [] now = some p
create_each p (id ∷ ids) now = elim (create_connection p (some id) now) [
  | none ↦ none
  | some (p', made) ↦ create_each p' ids now
]

still_fresh :
    (id : String) (keys js : List String)
    → occurs id keys ≡ 0
    → All (λ j. occurs j keys ≡ 0) js
    → All (λ j. id ≢ j) js
    → All (λ j. occurs j (insert_key id keys) ≡ 0) js
still_fresh id keys [] new fresh differ = tt
still_fresh id keys (j ∷ js) new (f, fresh) (d, differ) = (
  ground (arith, occurs-insert_key id j keys new, f, eq_iff id j, d),
  still_fresh id keys js new fresh differ,
)

-- Identifiers that differ from one another.
abbrev pub AreApart : List String → Type 0
AreApart [] = Unit
AreApart (id ∷ ids) = All (λ j. id ≢ j) ids × AreApart ids

abbrev Created : Pool → List String → ℕ → Type 0
Created p ids now =
    (p' : Pool) × (create_each p ids now ≡ some p')
    × (map_size p'.connections ≡ map_size p.connections + length ids)
    × (p'.config ≡ p.config)

create_each-Created :
    (ids keys : List String) (p : Pool) (now : ℕ)
    → p.connections ≡ some keys
    → All (λ id. occurs id keys ≡ 0) ids
    → AreApart ids
    → Created p ids now
unfolding create_each
create_each-Created [] keys p now e fresh apart = (p, refl, omega arith, refl)
create_each-Created (id ∷ ids) keys p now e (new, fresh) (differ, apart) =
    let p' : Pool = record p {
      connections = some (insert_key id keys);
      created_count = p.created_count + 1;
      total_connections = p.total_connections +ℤ pos 1;
    } in
    let (q, eq, size, config) =
      create_each-Created ids (insert_key id keys) p' now refl
        (still_fresh id keys ids new fresh differ) apart in
    (q, rw (create_each, made) eq, ground (arith, size, length-insert_key id keys new, e), config)
  where
    made :
        create_connection p (some id) now
        ≡ some (
          record p {
            connections = some (insert_key id keys);
            created_count = p.created_count + 1;
            total_connections = p.total_connections +ℤ pos 1;
          },
          some (record { id = id; created_at = now; last_used_at = now; usage_count = 0 }),
        )
    made = unfold create_connection in rw e refl

-- The bound of `MaxSize` is not kept by callers that overlap: in a pool with room for one more
-- connection each of any number of callers sees room, and when all of them then create, with
-- identifiers that are new and differ, no creation fails and the pool has MaxSize - 1 connections
-- and one more for each caller.
pub overlapping_creations :
    (p : Pool) (ids keys : List String) (now : ℕ)
    → p.connections ≡ some keys
    → length keys + 1 ≡ p.config.max_size
    → All (λ id. occurs id keys ≡ 0) ids
    → AreApart ids
    → (can_create_new_connection p ≡ true)
      × ((p' : Pool) × (create_each p ids now ≡ some p')
          × (map_size p'.connections + 1 ≡ p'.config.max_size + length ids))
overlapping_creations p ids keys now e room fresh apart =
    let (q, eq, size, config) = create_each-Created ids keys p now e fresh apart in
    (ground (arith, e, room), (q, eq, ground (arith, size, e, room, config)))
