-- ===== src/Session/Examples.antt =====
-- The session store at concrete inputs.
use mcp_bridge.Prelude.{ℕ, ◌≡◌, refl, none, some, List, [], ◌∷◌, arith, find, put, remove}
use mcp_bridge.Session.{
  Claims, MemoryManager, create_store, session_of, create_session, lookup, perform_cleanup,
  clean_keys, keys, get_session, remove_session,
}
use mcp_bridge.Session.Cleanup.{live, lookup-perform_cleanup}
use mcp_bridge.Session.Refinement.{
  Op, create, get, delete, clean, run, table_answers, InOrder, run-create_store,
}

abbrev claims : ℕ → Claims
claims expires_at = record {
  subject = "alice";
  expires_at = some expires_at;
  scopes = [];
  rate_limit = record { requests_per_minute = 60; burst = 10 };
}

abbrev ops : List (Op × ℕ)
ops =
    (create "a" (claims 10), 1)
    ∷ (create "b" (claims 20), 2)
    ∷ (get "a", 10)
    ∷ (clean, 11)
    ∷ (get "a", 11)
    ∷ (get "b", 12)
    ∷ (delete "b", 13)
    ∷ (get "b", 14)
    ∷ []

ops-InOrder : InOrder 0 ops
ops-InOrder = (
  omega arith,
  (
    omega arith,
    (omega arith, (omega arith, (omega arith, (omega arith, (omega arith, (omega arith, tt)))))),
  ),
)

ops-run :
    run create_store ops
    ≡ some (
        some (session_of "a" (claims 10) 10 1)
        ∷ none
        ∷ some (session_of "b" (claims 20) 20 2)
        ∷ none
        ∷ [])
unfolding run create_store create_session find put session_of get_session lookup perform_cleanup
    clean_keys keys remove_session remove
ops-run = refl

run-create_store_example : run create_store ops ≡ some (table_answers (λ id. none) ops)
run-create_store_example = run-create_store 0 ops ops-InOrder

abbrev held : MemoryManager
held = record { sessions = some (("a", session_of "a" (claims 10) 10 1) ∷ []) }

lookup-perform_cleanup_example : lookup (perform_cleanup held 11) "a" ≡ live 11 (lookup held "a")
lookup-perform_cleanup_example = lookup-perform_cleanup held 11 "a"
