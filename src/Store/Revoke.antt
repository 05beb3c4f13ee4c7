-- ===== src/Store/Revoke.antt =====
-- internal/store/liveness.go: `applyRevokeTx`, which ends a lease against its worker's will. The epoch
-- that it writes is the fence that the worker meets at its next call.
use flowbee.Base.{ℕ, ◌+◌, if◌then◌else◌, []}
use flowbee.Base.Text.{Text, bytes, text_eq}
use flowbee.Job.State.{eng_worker, no_role, role_caps}
use flowbee.Job.Record.{Job}
use flowbee.Ledger.Event.{Event, zero_payload}
use flowbee.Ledger.Cases.Shared.{is_ready, set_if}
use flowbee.Engine.Types.{Transition}
use flowbee.Store.Tables.{Tables, append, close_lease, cancel_timers, reset_live}

-- `newEpoch := j.LeaseEpoch; if t.BumpEpoch { newEpoch = j.LeaseEpoch + 1 }`
unfoldable pub bumped_epoch : Job → Transition → ℕ
bumped_epoch j t = if t.bump_epoch then j.lease_epoch + 1 else j.lease_epoch

unfoldable pub revoked_event : Job → Transition → ℕ → ℕ → Text → Event
revoked_event j t epoch now reason = record {
  job_id = j.id;
  job_seq = j.job_seq + 1;
  kind = t.kind;
  from_state = t.from;
  to_state = t.to;
  lease_epoch = epoch;
  actor = bytes "system";
  created_at = now;
  payload = record zero_payload {
    attempts_delta = t.attempts_delta;
    stall_revocations_delta = t.stall_revocations_delta;
    revoke_reason = t.revoke_reason;
    escalation_reason = reason;
    role = if is_ready t.to then eng_worker else no_role;
  };
}

unfoldable pub revoked_row : Job → Transition → ℕ → ℕ → Text → Job
revoked_row j t epoch now reason = record j {
  lease_epoch = epoch;
  attempts = j.attempts + t.attempts_delta;
  stall_revocations = j.stall_revocations + t.stall_revocations_delta;
  state = t.to;
  lease_id = [];
  bound_identity = [];
  bound_model_family = [];
  role = if is_ready t.to then eng_worker else j.role;
  required_capabilities = if is_ready t.to then role_caps eng_worker else j.required_capabilities;
  enqueued_at = if is_ready t.to then now else j.enqueued_at;
  escalation_reason = set_if reason j.escalation_reason;
  job_seq = j.job_seq + 1;
}

-- `switch t.RevokeReason`
unfoldable pub end_reason : Transition → Text
end_reason t =
    if text_eq t.revoke_reason (bytes "agent_exited")
    then bytes "expired"
    else if text_eq t.revoke_reason (bytes "awaiting_input")
    then bytes "released"
    else bytes "revoked"

unfoldable pub apply_revoke : Tables → Transition → ℕ → ℕ → Text → Tables
apply_revoke db t epoch now reason =
    let j = db.store.job in
    record db {
      store =
          append (revoked_row j t epoch now reason) (revoked_event j t epoch now reason) db.store;
      live = reset_live db.live;
      leases = close_lease j.lease_epoch (end_reason t) db.leases;
      timers = cancel_timers j.lease_epoch db.timers;
    }
