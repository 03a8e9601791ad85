-- ===== src/Chain/Sync/Queue/Examples.antt =====
-- A queue of numbers, with room for two.
use bitcoin_toolkit.Chain.Sync.Queue.{empty_queue, push_wake, push_enter, pop_enter}
use bitcoin_toolkit.Chain.Sync.Queue.Runs.{
  drained, closes, run-IsSettled, push_wakes, run-Inv, push_enters, pop_enters, fails, start, Act,
  IsSettled, Inv, run, History,
}
use bitcoin_toolkit.Common.{refl, none, ◌≡◌, true, false, [], ◌∷◌, ℕ, btk_error, List, BtkError}

abbrev stopped : BtkError
stopped = btk_error "balance" "interrupted"

abbrev acts : List (Act ℕ)
acts = push_enters 7 ∷ push_enters 8 ∷ push_enters 9 ∷ pop_enters ∷ push_wakes false 9 ∷ closes ∷ []

-- The third item waits until there is room.
abbrev after_acts : History ℕ
after_acts = record {
  queue = record { max = 2; q = 8 ∷ 9 ∷ []; closed = true; error = none };
  stored = 7 ∷ 8 ∷ 9 ∷ [];
  taken = 7 ∷ [];
}

acts_end : run acts (start 2) ≡ after_acts
unfolding run start pop_enter push_enter push_wake empty_queue
acts_end = refl

run-Inv_example : Inv 2 (run acts (start 2))
run-Inv_example = run-Inv 2 acts

run-IsSettled_example :
    IsSettled after_acts (run (fails stopped ∷ push_enters 10 ∷ pop_enters ∷ []) after_acts)
run-IsSettled_example =
    run-IsSettled (fails stopped ∷ push_enters 10 ∷ pop_enters ∷ []) after_acts refl

drained_example : run (pop_enters ∷ pop_enters ∷ []) after_acts ≡ record {
  queue = record { max = 2; q = []; closed = true; error = none };
  stored = 7 ∷ 8 ∷ 9 ∷ [];
  taken = 7 ∷ 8 ∷ 9 ∷ [];
}
drained_example = drained (8 ∷ 9 ∷ []) after_acts refl refl
