-- ===== src/Store/Complete.antt =====
-- internal/store/queries.go: `CompleteJob`, which completes a job and unblocks its dependents, and
-- `hasUnsatisfiedDeps`, on the rows of all jobs. The event of each is in the row's own list.
pub mod Unblocking
use flowbee.Base.{
  ℕ, ◌+◌, Bool, true, false, not, ◌&&◌, ◌||◌, if◌then◌else◌, List, [], ◌∷◌, ◌++◌, Option, none,
  some,
}
use flowbee.Base.Lists.{any}
use flowbee.Base.Text.{Text, bytes, text_eq}
use flowbee.Job.State.{State, ready, blocked, done}
use flowbee.Job.Transition.{next, Trigger}
use flowbee.Job.Record.{Job}
use flowbee.Ledger.Event.{Event, EventKind, zero_payload}
use flowbee.Store.Row.{JobStore}
use flowbee.Store.Tables.{Timer, append}
use flowbee.Store.Result.{arm_no_eligible}

-- The rows of `jobs`, each with its events.
abbrev pub Board : Type 0
Board = List JobStore

unfoldable pub state_of : Board → Text → Option State
state_of [] id = none
state_of (st ∷ board) id =
    let rest = state_of board id in if text_eq st.job.id id then some st.job.state else rest

unfoldable pub is_done : State → Bool
is_done done = true
is_done _ = false

-- A predecessor that is unknown or not done blocks.
unfoldable pub is_unsatisfied : Board → Text → Bool
is_unsatisfied board dep = elim (state_of board dep) [ none ↦ true | some s ↦ not (is_done s) ]

unfoldable pub has_unsatisfied_deps : Board → List Text → Bool
has_unsatisfied_deps board deps = any (is_unsatisfied board) deps

system_event : EventKind → ℕ → Job → State → Event
system_event kind now j to = record {
  job_id = j.id;
  job_seq = j.job_seq + 1;
  kind = kind;
  from_state = j.state;
  to_state = to;
  lease_epoch = 0;
  actor = bytes "system";
  created_at = now;
  payload = zero_payload;
}

unfoldable pub completed_store : ℕ → State → JobStore → JobStore
unfolding system_event
completed_store now to st =
    append (record (st.job) { state = to; job_seq = st.job.job_seq + 1 })
      (system_event EventKind.job_completed now st.job to) st

unfoldable pub unblocked_store : ℕ → JobStore → JobStore
unfolding system_event
unblocked_store now st =
    append (record (st.job) { state = ready; enqueued_at = now; job_seq = st.job.job_seq + 1 })
      (system_event EventKind.deps_cleared now st.job ready) st

-- `UPDATE jobs SET state=? … WHERE id=?`
unfoldable pub complete_rows : ℕ → State → Text → Board → Board
complete_rows now to id [] = []
complete_rows now to id (st ∷ rest) =
    (if text_eq st.job.id id then completed_store now to st else st) ∷ complete_rows now to id rest

unfoldable pub is_blocked : State → Bool
is_blocked blocked = true
is_blocked _ = false

-- A blocked row that names the completed job and whose predecessors are all done. The loop reads the rows
-- of `all`; those that it unblocks meanwhile were not done before and are not done then.
unfoldable pub is_freed : Text → Board → JobStore → Bool
is_freed id all st =
    is_blocked st.job.state
    && any (text_eq id) st.job.blocked_by
    && not (has_unsatisfied_deps all st.job.blocked_by)

unfoldable pub free_rows : ℕ → Text → Board → Board → Board
free_rows now id all [] = []
free_rows now id all (st ∷ rest) =
    (if is_freed id all st then unblocked_store now st else st) ∷ free_rows now id all rest

unfoldable pub freed_ids : Text → Board → Board → List Text
freed_ids id all [] = []
freed_ids id all (st ∷ rest) =
    let more = freed_ids id all rest in if is_freed id all st then st.job.id ∷ more else more

-- The alarm of each row that is unblocked, at epoch 0.
unfoldable pub arm_freed : ℕ → ℕ → Text → Board → Board → List Timer → Option (List Timer)
arm_freed delay now id all [] timers = some timers
arm_freed delay now id all (st ∷ rest) timers =
    elim (if is_freed id all st
      then arm_no_eligible delay st.job.id 0 now timers
      else some timers) [ none ↦ none | some armed ↦ arm_freed delay now id all rest armed ]

unfoldable pub next_of : Option State → Option State
next_of none = none
next_of (some s) = next s Trigger.completed

-- The rows, the timers and the ids that became ready, or `none` for an error with nothing written.
unfoldable pub complete_job :
    ℕ → Text → ℕ → Board → List Timer → Option (Board × List Timer × List Text)
complete_job delay id now board timers = elim (next_of (state_of board id)) [
  | none ↦ none
  | some to ↦
      let all = complete_rows now to id board in
      elim (arm_freed delay now id all all timers) [
        | none ↦ none
        | some armed ↦ some (free_rows now id all all, armed, freed_ids id all all)
      ]
]
