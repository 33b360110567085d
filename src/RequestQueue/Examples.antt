-- ===== src/RequestQueue/Examples.antt =====
-- The request queue at concrete inputs: contexts and errors are numbers.
use mcp_bridge.Prelude.{All, ℕ, ◌≡◌, refl, some, List, [], ◌∷◌, map, ◌+◌, length}
use mcp_bridge.RequestQueue.{RequestQueue, new_request_queue, clear, enqueue}
use mcp_bridge.RequestQueue.Accounting.{
  Op, offer, take, drop, History, run, start, IsAccounted, answered, IsFresh, clear-fresh,
  run-start-IsAccounted,
}

abbrev ops : List (Op ℕ ℕ)
ops =
    offer (1 ∷ []) 0 5
    ∷ offer (2 ∷ []) 0 6
    ∷ offer (3 ∷ []) 0 7
    ∷ take
    ∷ offer (4 ∷ []) 0 8
    ∷ drop 99
    ∷ offer (5 ∷ []) 0 9
    ∷ []

run-start-IsAccounted_example :
    (h : History ℕ ℕ) × (run ℕ ℕ (start ℕ ℕ 2) ops ≡ some h) × IsAccounted ℕ ℕ h
run-start-IsAccounted_example = run-start-IsAccounted ℕ ℕ 2 ops

abbrev waiting : RequestQueue ℕ ℕ
waiting = (enqueue ℕ ℕ (new_request_queue ℕ ℕ 0) (1 ∷ []) 0 5).0

waiting_unanswered : All (IsFresh ℕ ℕ) waiting.queue
unfolding enqueue new_request_queue
waiting_unanswered = (refl, tt)

clear-fresh_example :
    clear ℕ ℕ waiting 99
    ≡ some (
      record waiting { queue = []; total_dropped = waiting.total_dropped + length waiting.queue },
      map (answered ℕ ℕ 99) waiting.queue,
    )
clear-fresh_example = clear-fresh ℕ ℕ waiting 99 waiting_unanswered
