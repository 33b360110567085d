-- ===== src/SlidingWindow/Examples.antt =====
-- The sliding window at concrete inputs.
use mcp_bridge.Prelude.{inl, leb, ℕ, ◌≤◌, ◌≡◌, refl, true, false, List, [], ◌∷◌, arith, count_if}
use mcp_bridge.RateLimit.Window.{within}
use mcp_bridge.SlidingWindow.{
  SlidingWindow, new_sliding_window, allow, admit, clean_when_due, cleanup,
}
use mcp_bridge.SlidingWindow.Waiting.{wait, next_backoff, admitted, canceled, Ended, wait_ends}
use mcp_bridge.SlidingWindow.Refinement.{
  answers, log_answers, accepted, InOrder, answers-log_answers, accepted_bounded,
}

abbrev nows : List ℕ
nows = 1 ∷ 2 ∷ 3 ∷ 12 ∷ 13 ∷ []

nows-InOrder : InOrder 0 nows
nows-InOrder = (omega arith, (omega arith, (omega arith, (omega arith, (omega arith, tt)))))

nows-answers : answers (new_sliding_window 10 2 0) nows ≡ true ∷ true ∷ false ∷ true ∷ true ∷ []
unfolding answers new_sliding_window allow admit clean_when_due
nows-answers = refl

answers-log_answers_example : answers (new_sliding_window 10 2 0) nows ≡ log_answers 10 2 [] nows
answers-log_answers_example = answers-log_answers 10 2 0 nows nows-InOrder

accepted_bounded_example :
    count_if (within 10 14) (accepted (new_sliding_window 10 2 0) [] nows) ≤ 2
accepted_bounded_example = accepted_bounded 10 2 0 nows nows-InOrder 14 (omega arith)

abbrev full_window : SlidingWindow
full_window = record {
  window_size = 100_000_000;
  max_events = 1;
  events = 5 ∷ [];
  cleanup_at = 100_000_000;
}

-- Pauses of 10, 20, 40 and 80 ms, each with 3 ns more.
waits : (wait (λ t. false) (λ t. 3) 20 full_window 5).1 ≡ admitted 150_000_017
unfolding wait next_backoff allow admit clean_when_due cleanup
waits = refl

gives_up : (wait (λ t. leb 60_000_000 t) (λ t. 3) 20 full_window 5).1 ≡ canceled 70_000_011
unfolding wait next_backoff allow admit clean_when_due cleanup
gives_up = refl

wait_ends_example :
    Ended (λ t. false) 5 1_100_000_008 (wait (λ t. false) (λ t. 3) 11 full_window 5).1
wait_ends_example =
    wait_ends (λ t. false) (λ t. 3) 3 (λ t. omega arith) 10 5 100_000_005 full_window
      (omega arith, tt) (inl (omega arith, omega arith)) (omega arith) (omega arith)
