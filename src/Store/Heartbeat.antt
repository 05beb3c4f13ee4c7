-- ===== src/Store/Heartbeat.antt =====
-- internal/store/queries.go: `Heartbeat`, the fenced heartbeat with its two fast paths.
use flowbee.Base.{ℕ, ◌+◌, Bool, if◌then◌else◌, List, [], ◌∷◌, Option, none, some}
use flowbee.Base.Text.{Text, is_empty}
use flowbee.Job.Record.{Job}
use flowbee.Ledger.Event.{Event, EventKind, zero_payload}
use flowbee.Liveness.{AgentHealth, Rung1Class}
use flowbee.Engine.{decide}
use flowbee.Engine.Types.{EngineEvent, Directive, Transition}
use flowbee.Store.Release.{release_snapshot}
use flowbee.Store.Tables.{Tables, stale_epoch, Tx, rolled_back, committed, append, touch_workers}
use flowbee.Store.Revoke.{bumped_epoch, apply_revoke}

pub record HeartbeatParams : Type 0 where
  pub epoch : ℕ
  pub now : ℕ
  pub health : AgentHealth
  pub rung1 : Rung1Class
  pub awaiting_input : Bool
  pub agent_exited : Bool

-- The event that the engine sees; the snapshot is the one of `Release`.
unfoldable pub heartbeat_report : HeartbeatParams → EngineEvent
heartbeat_report p = EngineEvent.heartbeat (record {
  epoch = p.epoch;
  health = p.health;
  awaiting_input = p.awaiting_input;
  agent_exited = p.agent_exited;
})

unfoldable pub heartbeat_event : HeartbeatParams → Job → Event
heartbeat_event p j = record {
  job_id = j.id;
  job_seq = j.job_seq + 1;
  kind = EventKind.heartbeat;
  from_state = j.state;
  to_state = j.state;
  lease_epoch = j.lease_epoch;
  actor = j.bound_identity;
  created_at = p.now;
  payload = zero_payload;
}

unfoldable pub beaten_row : Job → Job
beaten_row j = record j { job_seq = j.job_seq + 1 }

-- The writes of a heartbeat that is not a fast path.
unfoldable pub record_heartbeat : HeartbeatParams → Tables → Tables
record_heartbeat p db = record db {
  store = append (beaten_row db.store.job) (heartbeat_event p db.store.job) db.store;
  live = record (db.live) {
    lease_hb_due = some p.now;
    last_heartbeat_at = some p.now;
    agent_health = p.health;
    rung1_class = p.rung1;
  };
  workers =
      if is_empty db.store.job.bound_identity
      then db.workers
      else touch_workers db.store.job.bound_identity p.now db.workers;
}

-- `len(dec.Transitions) > 0`, and the first one is applied.
unfoldable pub heartbeat_writes : HeartbeatParams → Tables → List Transition → Tables
heartbeat_writes p db [] = record_heartbeat p db
heartbeat_writes p db (t ∷ rest) = apply_revoke db t (bumped_epoch db.store.job t) p.now []

unfoldable pub store_heartbeat :
    (Text → Text) → HeartbeatParams → Tables → Tx (Tables × Option Directive)
store_heartbeat sha256 p db =
    let dec = decide sha256 (release_snapshot db.store.job p.now) (heartbeat_report p) in
    elim dec.reject [
      | some reason ↦ rolled_back stale_epoch
      | none ↦ committed (heartbeat_writes p db dec.transitions, dec.directive)
    ]
