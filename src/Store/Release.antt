-- ===== src/Store/Release.antt =====
-- internal/store/queries.go: `Release`. The store is the row of the job and its events; of the row
-- the columns of the projection are modelled, not the patch, the reservation and the timestamps.
pub mod Projection
pub mod Divergence
use flowbee.Base.{
  ℕ, ◌+◌, Bool, true, false, not, ◌&&◌, ◌||◌, if◌then◌else◌, List, [], ◌∷◌, ◌++◌, Option, none,
  some, leb, ltb,
}
use flowbee.Base.Text.{Text, bytes}
use flowbee.Base.Int.{pos}
use flowbee.Job.State.{State, ready, needs_human, resolving_conflict, escalation_attempts}
use flowbee.Job.Transition.{released, next}
use flowbee.Job.Record.{Job}
use flowbee.Ledger.Event.{Event, EventKind, zero_payload}
use flowbee.Ledger.Event.EventKind.{lease_released, state_changed}
use flowbee.Engine.Types.{EngineState, EngineEvent, release}
use flowbee.Engine.{decide}
use flowbee.Store.Row.{JobStore}

pub record ReleaseParams : Type 0 where
  pub epoch : ℕ
  pub now : ℕ
  pub no_penalty : Bool
  pub failed : Bool

-- The snapshot that `Release` passes on: the facts, the policy, the spec and the content are at their
-- zero values.
unfoldable pub release_snapshot : Job → ℕ → EngineState
release_snapshot j now = record {
  job = j;
  now = now;
  epoch = j.lease_epoch;
  github = record {
    pr_exists = false;
    pr_number = 0;
    head_sha = [];
    base_sha = [];
    ci_green = false;
    merged = false;
    mergeable_state = [];
  };
  policy = record { allow_self_merge = false; required_reviewers = pos 0 };
  spec = record { current_hash = []; version = 0; author_lens = []; reviewer_lens = [] };
  content = none;
}

-- The table's target, and `ready` where the table has none.
unfoldable pub rearm_state : State → State
rearm_state s = elim (next s released) [ none ↦ ready | some to ↦ to ]

unfoldable pub is_penalized : State → Bool
is_penalized ready = true
is_penalized resolving_conflict = true
is_penalized _ = false

unfoldable pub burns_attempt : ReleaseParams → State → Bool
burns_attempt p to = p.failed || (not p.no_penalty && is_penalized to)

unfoldable pub released_event : ReleaseParams → Job → State → ℕ → Event
released_event p j to delta = record {
  job_id = j.id;
  job_seq = j.job_seq + 1;
  kind = lease_released;
  from_state = j.state;
  to_state = to;
  lease_epoch = j.lease_epoch;
  actor = j.bound_identity;
  created_at = p.now;
  payload = record zero_payload { attempts_delta = delta };
}

unfoldable pub released_row : Job → State → ℕ → Job
released_row j to delta = record j {
  state = to;
  lease_id = [];
  bound_identity = [];
  bound_model_family = [];
  attempts = j.attempts + delta;
  job_seq = j.job_seq + 1;
}

-- `attemptsDelta == 1 && j.MaxAttempts > 0 && j.Attempts+1 >= j.MaxAttempts`
unfoldable pub is_exhausted : Job → Bool → Bool
is_exhausted j burns = burns && ltb 0 j.max_attempts && leb j.max_attempts (j.attempts + 1)

unfoldable pub exhausted_event : ReleaseParams → Job → State → Event
exhausted_event p j to = record {
  job_id = j.id;
  job_seq = (j.job_seq + 1) + 1;
  kind = state_changed;
  from_state = to;
  to_state = needs_human;
  lease_epoch = j.lease_epoch;
  actor = bytes "attempts-exhausted";
  created_at = p.now;
  payload = record zero_payload { escalation_reason = escalation_attempts };
}

unfoldable pub exhausted_row : Job → Job
exhausted_row r = record r {
  state = needs_human;
  escalation_reason = escalation_attempts;
  job_seq = r.job_seq + 1;
}

-- The writes of the transaction, once the engine has let the release through.
unfoldable pub apply_release : ReleaseParams → JobStore → State → Bool → JobStore
apply_release p st to burns =
    let delta = if burns then 1 else 0 in
    let row = released_row st.job to delta in
    let logged = st.events ++ (released_event p st.job to delta ∷ []) in
    if is_exhausted st.job burns
    then record { job = exhausted_row row; events = logged ++ (exhausted_event p st.job to ∷ []) }
    else record { job = row; events = logged }

-- `none` is `lease.ErrStaleEpoch`, with the transaction rolled back.
unfoldable pub store_release : (Text → Text) → ReleaseParams → JobStore → Option JobStore
store_release sha256 p st =
    let to = rearm_state st.job.state in
    elim (decide sha256 (release_snapshot st.job p.now) (release p.epoch)).reject [
      | some reason ↦ none
      | none ↦ some (apply_release p st to (burns_attempt p to))
    ]
