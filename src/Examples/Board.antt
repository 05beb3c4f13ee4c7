-- ===== src/Examples/Board.antt =====
-- The theorem on `CompleteJob` of internal/store/queries.go, applied to a job and the one that waits for it.
use flowbee.Base.{◌≡◌, refl, List, [], ◌∷◌, Option, none, some, arith}
use flowbee.Base.Text.{Text, bytes, text_eq}
use flowbee.Job.State.{review_pending, blocked}
use flowbee.Job.Record.{zero_job}
use flowbee.Store.Row.{JobStore}
use flowbee.Store.Tables.{Timer}
use flowbee.Store.Complete.{Board, complete_job}
use flowbee.Store.Complete.Unblocking.{Waits, Releases, complete_job-Waits}
use flowbee.Store.Complete.{has_unsatisfied_deps, is_blocked, is_done, is_unsatisfied, state_of}
use flowbee.Store.Complete.{next_of}
use flowbee.Job.Transition.{next}
use flowbee.Store.Complete.{arm_freed}
use flowbee.Store.Complete.{complete_rows}
use flowbee.Store.Complete.{is_freed}
use flowbee.Store.Complete.{completed_store}
use flowbee.Store.Tables.{append}
use flowbee.Base.Lists.{any}
use flowbee.Store.Result.{arm_no_eligible}
use flowbee.Store.Complete.{freed_ids}

abbrev first_row : JobStore
first_row = record { job = record zero_job { id = bytes "a"; state = review_pending }; events = [] }

abbrev second_row : JobStore
second_row = record {
  job = record zero_job { id = bytes "b"; state = blocked; blocked_by = bytes "a" ∷ [] };
  events = [];
}

abbrev board : Board
board = first_row ∷ second_row ∷ []

abbrev result : Option (Board × List Timer × List Text)
result = complete_job 0 (bytes "a") 9 board []

abbrev board_of : Option (Board × List Timer × List Text) → Board
board_of none = []
board_of (some (b, ts, ids)) = b

abbrev timers_of : Option (Board × List Timer × List Text) → List Timer
timers_of none = []
timers_of (some (b, ts, ids)) = ts

abbrev ids_of : Option (Board × List Timer × List Text) → List Text
ids_of none = []
ids_of (some (b, ts, ids)) = ids

board-Waits : Waits board board
unfolding is_blocked has_unsatisfied_deps is_unsatisfied state_of is_done any text_eq bytes zero_job
board-Waits = (λ b. absurd (ground (arith, b)), ((λ b. refl), tt))

completes : result ≡ some (board_of result, timers_of result, ids_of result)
unfolding complete_job next_of state_of text_eq bytes next arm_freed complete_rows is_freed
    is_blocked completed_store append any has_unsatisfied_deps is_unsatisfied is_done
    arm_no_eligible
completes = refl

unblocked_ids : ids_of result ≡ bytes "b" ∷ []
unfolding complete_job next_of state_of text_eq bytes next arm_freed complete_rows is_freed
    is_blocked completed_store append any has_unsatisfied_deps is_unsatisfied is_done
    arm_no_eligible freed_ids zero_job
unblocked_ids = refl

complete_job-Waits_example :
    Waits (board_of result) (board_of result)
    × Releases 9 (bytes "a") (board_of result) board (board_of result)
complete_job-Waits_example =
    complete_job-Waits 0 9 (bytes "a") board (board_of result) [] (timers_of result) (ids_of result)
      board-Waits completes
