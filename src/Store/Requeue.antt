-- ===== src/Store/Requeue.antt =====
-- internal/store/requeue.go: the operator's `RequeueJob` and `CancelJob`.
pub mod Replays
pub mod Fences
use flowbee.Base.{
  ℕ, ◌+◌, Bool, true, false, not, ◌&&◌, if◌then◌else◌, List, [], ◌∷◌, Option, none, some,
}
use flowbee.Base.Text.{Text, bytes}
use flowbee.Job.State.{
  State, ready, spec_authoring, done, cancelled, Kind, spec, Role, eng_worker, spec_author,
  role_caps, has_active_lease,
}
use flowbee.Job.Record.{Job}
use flowbee.Ledger.Event.{Event, zero_payload}
use flowbee.Ledger.Event.EventKind.{state_changed}
use flowbee.Ledger.Cases.Shared.{stage_build, stage_spec}
use flowbee.Store.Tables.{Tables, LeaseRow, LivenessColumns, append, is_open}
use flowbee.Store.Return.{blank_build}

is_spec : Kind → Bool
is_spec spec = true
is_spec _ = false

-- The entry stage of the job.
unfoldable pub requeue_state : Job → State
unfolding is_spec
requeue_state j = if is_spec j.kind then spec_authoring else ready

unfoldable pub requeue_role : Job → Role
unfolding is_spec
requeue_role j = if is_spec j.kind then spec_author else eng_worker

unfoldable pub requeue_stage : Job → Text
unfolding is_spec
requeue_stage j = if is_spec j.kind then stage_spec else stage_build

unfoldable pub requeued_event : ℕ → Job → Event
requeued_event now j = record {
  job_id = j.id;
  job_seq = j.job_seq + 1;
  kind = state_changed;
  from_state = j.state;
  to_state = requeue_state j;
  lease_epoch = j.lease_epoch + 1;
  actor = bytes "operator";
  created_at = now;
  payload = record zero_payload { reset_counters = true };
}

unfoldable pub requeued_row : ℕ → Job → Job
requeued_row now j = record j {
  state = requeue_state j;
  role = requeue_role j;
  stage = requeue_stage j;
  required_capabilities = role_caps (requeue_role j);
  head_sha = [];
  verdict = none;
  attempts = 0;
  bounces = 0;
  stall_revocations = 0;
  over_budget = false;
  escalation_reason = [];
  lease_epoch = j.lease_epoch + 1;
  lease_id = [];
  bound_identity = [];
  bound_model_family = [];
  enqueued_at = now;
  job_seq = j.job_seq + 1;
}

end_open : Text → LeaseRow → LeaseRow
unfolding is_open
end_open reason r = if is_open r then record r { end_reason = some reason } else r

-- `UPDATE leases … WHERE job_id = ? AND ended_at IS NULL`
unfoldable pub close_open : Text → List LeaseRow → List LeaseRow
unfolding end_open
close_open reason [] = []
close_open reason (r ∷ rows) = end_open reason r ∷ close_open reason rows

unfoldable pub unleased : LivenessColumns → LivenessColumns
unleased l = record l { lease_hb_due = none; lease_deadline = none }

unfoldable pub apply_requeue : ℕ → Tables → Tables
apply_requeue now db = record db {
  store = append (requeued_row now db.store.job) (requeued_event now db.store.job) db.store;
  build = blank_build true db.build;
  live = unleased db.live;
  leases = close_open (bytes "requeued") db.leases;
}

-- `none` is `ErrJobActivelyLeased`, with nothing written.
unfoldable pub requeue_job : Bool → ℕ → Tables → Option (Tables × State)
requeue_job force now db =
    if not force && has_active_lease db.store.job.state
    then none
    else some (apply_requeue now db, requeue_state db.store.job)

unfoldable pub cancelled_event : ℕ → Job → Event
cancelled_event now j = record {
  job_id = j.id;
  job_seq = j.job_seq + 1;
  kind = state_changed;
  from_state = j.state;
  to_state = cancelled;
  lease_epoch = j.lease_epoch + 1;
  actor = bytes "operator";
  created_at = now;
  payload = zero_payload;
}

unfoldable pub cancelled_row : Job → Job
cancelled_row j = record j {
  state = cancelled;
  lease_epoch = j.lease_epoch + 1;
  lease_id = [];
  bound_identity = [];
  bound_model_family = [];
  job_seq = j.job_seq + 1;
}

unfoldable pub apply_cancel : ℕ → Tables → Tables
apply_cancel now db = record db {
  store = append (cancelled_row db.store.job) (cancelled_event now db.store.job) db.store;
  live = unleased db.live;
  leases = close_open (bytes "cancelled") db.leases;
}

unfoldable pub is_closed : State → Bool
is_closed done = true
is_closed cancelled = true
is_closed _ = false

-- A job that is done or cancelled stays as it is.
unfoldable pub cancel_job : Bool → ℕ → Tables → Option (Tables × State)
cancel_job force now db =
    if is_closed db.store.job.state
    then some (db, db.store.job.state)
    else if not force && has_active_lease db.store.job.state
    then none
    else some (apply_cancel now db, cancelled)
