-- ===== src/Store/Alarms.antt =====
-- internal/store/timers.go: `FireNoEligibleWorker`, the alarm of a job that nobody takes.
use flowbee.Base.{ℕ, ◌+◌, ◌==◌, Bool, true, false, not, ◌||◌, if◌then◌else◌, List, [], ◌∷◌}
use flowbee.Base.Text.{Text, bytes, text_eq}
use flowbee.Job.State.{State, ready, review_pending}
use flowbee.Job.Record.{Job}
use flowbee.Ledger.Event.{Event, EventKind, zero_payload}
use flowbee.Store.Tables.{Tables, Timer, append}
use flowbee.Store.Watch.{fired_timer}

unfoldable pub is_waiting : State → Bool
is_waiting ready = true
is_waiting review_pending = true
is_waiting _ = false

-- `INSERT INTO job_alarms … ON CONFLICT (job_id, kind) DO UPDATE SET fired_at = excluded.fired_at`
unfoldable pub record_alarm : Text → ℕ → List (Text × ℕ) → List (Text × ℕ)
record_alarm kind now [] = (kind, now) ∷ []
record_alarm kind now ((k, at) ∷ rest) =
    let later = record_alarm kind now rest in
    if text_eq k kind then (k, now) ∷ rest else (k, at) ∷ later

unfoldable pub alarm_event : ℕ → Job → Event
alarm_event now j = record {
  job_id = j.id;
  job_seq = j.job_seq + 1;
  kind = EventKind.no_eligible_worker;
  from_state = j.state;
  to_state = j.state;
  lease_epoch = j.lease_epoch;
  actor = bytes "system";
  created_at = now;
  payload = zero_payload;
}

unfoldable pub alarmed_row : Job → Job
alarmed_row j = record j { job_seq = j.job_seq + 1 }

-- A timer of another epoch, or of a job that waits no longer, is only marked.
unfoldable pub fire_no_eligible_worker : Timer → ℕ → Tables → Tables × Bool
fire_no_eligible_worker t now db =
    let j = db.store.job in
    if not (j.lease_epoch == t.expected_epoch) || not (is_waiting j.state)
    then (fired_timer t.id db, false)
    else (
      record (fired_timer t.id db) {
        store = append (alarmed_row j) (alarm_event now j) db.store;
        alarms = record_alarm t.kind now db.alarms;
      },
      true,
    )
