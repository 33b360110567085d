-- ===== src/Pool/Examples.antt =====
-- A pool of at most two connections and three callers.
use mcp_bridge.Prelude.{
  ℕ, ◌+◌, ◌≡◌, ◌↔◌, refl, true, false, eq_iff, Bool, Option, none, some, List, [], ◌∷◌, String,
  str_eq, not,
}
use mcp_bridge.Prelude.Int.{pos, negsuc}
use mcp_bridge.Pool.{
  RawConfig, Pool, map_size, new_pool, validate_and_normalize, create_pool_struct,
  create_connection,
}
use mcp_bridge.Pool.Clients.{
  Event, acquire, enqueue, give_up, receive, release_held, maintain_size, health_check, close_pool,
  run_from, start, step,
}
use mcp_bridge.Pool.Callers.{Sound, AreAllowedFrom}
use mcp_bridge.Pool.Sections.{IsFreshRun}
use mcp_bridge.Pool.Acquirer.{can_create_new_connection}
use mcp_bridge.Pool.Overlapping.{AreApart, create_each, overlapping_creations}
use mcp_bridge.Pool.Soundness.{run_new-Sound}

abbrev raw : RawConfig
raw = record {
  min_size = pos 1;
  max_size = pos 2;
  max_idle_time = negsuc 0;
  max_lifetime = pos 0;
  acquire_timeout = pos 5;
  health_check_interval = pos 0;
}

abbrev healthy : String → Bool
healthy id = not (str_eq id "old")

abbrev create : ℕ → Option String
create k = some "old"

abbrev events : List Event
events =
    acquire healthy (some "a") 1
    ∷ acquire healthy (some "b") 2
    ∷ acquire healthy (some "c") 3
    ∷ enqueue 0
    ∷ give_up 0
    ∷ release_held "a" healthy 4
    ∷ acquire healthy none 5
    ∷ enqueue 1
    ∷ release_held "b" healthy 6
    ∷ receive 1 7
    ∷ release_held "b" healthy 8
    ∷ health_check healthy 9
    ∷ maintain_size (λ k. some "d") 10
    ∷ close_pool
    ∷ []

abbrev made : Option Pool
made = new_pool raw create 0

new_at_start :
    IsFreshRun
      (validate_and_normalize raw).min_size
      (create_pool_struct (validate_and_normalize raw))
      create
      0
unfolding validate_and_normalize create_pool_struct create_connection
new_at_start = (refl, tt)

allowed : AreAllowedFrom made events
unfolding new_pool validate_and_normalize create_pool_struct start step
allowed = (
  refl,
  (refl, (refl, (tt, (tt, (tt, (tt, (tt, (tt, (tt, (tt, (tt, ((refl, tt), (refl, tt))))))))))))),
)

run_new-Sound_example : Sound (run_from made events)
run_new-Sound_example = run_new-Sound raw create 0 events new_at_start allowed

-- A pool with one connection of two, whose last place three callers see.
abbrev one_of_two : Pool
one_of_two = record (create_pool_struct (validate_and_normalize raw)) {
  connections = some ("x" ∷ []);
  total_connections = pos 1;
  created_count = 1;
}

abbrev three : List String
three = "a" ∷ "b" ∷ "c" ∷ []

three-AreApart : AreApart three
three-AreApart = (
  ((λ e. differ (eq_iff "a" "b") refl e), ((λ e. differ (eq_iff "a" "c") refl e), tt)),
  (((λ e. differ (eq_iff "b" "c") refl e), tt), (tt, tt)),
)
  where
    differ : {a b : String} → ((str_eq a b ≡ true) ↔ (a ≡ b)) → str_eq a b ≡ false → ¬ (a ≡ b)
    differ i f e = let t = i.1 e in cc

overlapping_creations_example :
    (can_create_new_connection one_of_two ≡ true)
    × ((p' : Pool) × (create_each one_of_two three 1 ≡ some p')
        × (map_size p'.connections + 1 ≡ p'.config.max_size + 3))
unfolding create_pool_struct validate_and_normalize
overlapping_creations_example =
    overlapping_creations one_of_two three ("x" ∷ []) 1 refl refl (refl, (refl, (refl, tt)))
      three-AreApart
