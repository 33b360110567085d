-- ===== src/ConnectionManager/Examples.antt =====
-- The manager at concrete answers.
use mcp_bridge.Prelude.{◌≡◌, refl, Bool, true, false, List, [], ◌∷◌, ◌*◌}
use mcp_bridge.ConnectionManager.{
  new_connection_manager, maintain_connection, attempt_all, second, set_state, stop,
  should_stop_keepalive, connected, reconnecting,
}
use mcp_bridge.ConnectionManager.Backoff.{schedule, gives_up, maintain_connection-schedule}

abbrev answers : List Bool
answers = false ∷ false ∷ false ∷ true ∷ false ∷ []

waited :
    (attempt_all answers (maintain_connection new_connection_manager)).waits
    ≡ second ∷ 4 * second ∷ 2 * second ∷ second ∷ []
unfolding attempt_all maintain_connection new_connection_manager
waited = refl

keepalive_fails :
    (should_stop_keepalive false (set_state connected new_connection_manager)).0.state_changes
    ≡ connected ∷ reconnecting ∷ []
unfolding should_stop_keepalive set_state new_connection_manager
keepalive_fails = refl

stopped : (set_state connected (stop new_connection_manager)).state_changes ≡ []
unfolding set_state stop new_connection_manager
stopped = refl

maintain_connection-schedule_example :
    let r = attempt_all answers (maintain_connection new_connection_manager) in
    (r.waits ≡ schedule 0 answers []) × (r.gave_up ≡ gives_up 0 answers)
maintain_connection-schedule_example = maintain_connection-schedule new_connection_manager answers
