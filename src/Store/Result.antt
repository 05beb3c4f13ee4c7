-- ===== src/Store/Result.antt =====
-- internal/store/queries.go: `Result`, the fenced and idempotent result of a build, and
-- internal/store/timers.go: `armNoEligibleTimerTx`.
use flowbee.Base.{
  ℕ, ◌+◌, ◌++◌, ◌==◌, Bool, true, false, if◌then◌else◌, List, [], ◌∷◌, Option, none, some,
}
use flowbee.Base.Text.{Text, bytes, is_empty, text_eq}
use flowbee.Base.Decimal.{decimal}
use flowbee.Job.State.{State, state_text, review_pending, eng_worker, code_reviewer, role_caps}
use flowbee.Job.Record.{Job}
use flowbee.Ledger.Event.{Event, EventKind, zero_payload}
use flowbee.Ledger.Event.EventKind.{result_accepted}
use flowbee.Ledger.Cases.Shared.{set_if}
use flowbee.Engine.{decide}
use flowbee.Engine.Types.{EngineEvent, Transition}
use flowbee.Store.Release.{release_snapshot}
use flowbee.Store.Tables.{
  Tables, BuildColumns, Response, Timer, stale_epoch, constraint_violated, Tx, rolled_back,
  committed, close_lease, insert_timer, coalesce,
}
use flowbee.Store.Claim.{null_if_empty}

pub record ResultParams : Type 0 where
  pub epoch : ℕ
  pub idempotency_key : Text
  pub now : ℕ
  pub pushed_ref : Text
  pub pushed_sha : Text
  pub patch_diff : Text
  pub declared_blast_radius : Text

abbrev timer_no_eligible_worker : Text
timer_no_eligible_worker = bytes "no_eligible_worker"

unfoldable pub no_eligible_id : Text → ℕ → ℕ → Text
no_eligible_id job epoch now = job ++ bytes "-noelig-e" ++ decimal epoch ++ bytes "-" ++ decimal now

-- `none` is a timer id that is there already; a delay of 0 arms nothing.
unfoldable pub arm_no_eligible : ℕ → Text → ℕ → ℕ → List Timer → Option (List Timer)
arm_no_eligible delay job epoch now timers =
    if delay == 0
    then some timers
    else insert_timer
        (record {
          id = no_eligible_id job epoch now;
          kind = timer_no_eligible_worker;
          due_at = now + delay;
          expected_epoch = epoch;
          fired = false;
        })
        timers

unfoldable pub cached_response : Text → List (Text × Response) → Option Response
cached_response key [] = none
cached_response key ((k, r) ∷ rest) =
    let found = cached_response key rest in if text_eq k key then some r else found

is_result_accepted : EventKind → Bool
is_result_accepted result_accepted = true
is_result_accepted _ = false

unfoldable pub result_event : ResultParams → Job → ℕ → Transition → Event
unfolding is_result_accepted
result_event p j seq t = record {
  job_id = j.id;
  job_seq = seq;
  kind = t.kind;
  from_state = t.from;
  to_state = t.to;
  lease_epoch = j.lease_epoch;
  actor = j.bound_identity;
  created_at = p.now;
  payload =
      if is_result_accepted t.kind
      then record zero_payload { head_sha = p.pushed_sha }
      else zero_payload;
}

-- The loop over the transitions: the events, the last sequence number and the final state.
unfoldable pub result_events : ResultParams → Job → ℕ → List Transition → List Event
result_events p j seq [] = []
result_events p j seq (t ∷ ts) = result_event p j (seq + 1) t ∷ result_events p j (seq + 1) ts

unfoldable pub last_seq : ℕ → List Transition → ℕ
last_seq seq [] = seq
last_seq seq (t ∷ ts) = last_seq (seq + 1) ts

unfoldable pub final_state : State → List Transition → State
final_state s [] = s
final_state s (t ∷ ts) = final_state t.to ts

-- The update of a job whose lease ends and that moves on.
unfoldable pub moved_on_row : Job → State → ℕ → Job
moved_on_row j to seq = record j {
  state = to;
  lease_id = [];
  bound_identity = [];
  bound_model_family = [];
  job_seq = seq;
}

-- The update of a build that goes to its review.
unfoldable pub built_row : ResultParams → Job → ℕ → Job
built_row p j seq = record (moved_on_row j review_pending seq) {
  role = eng_worker;
  required_capabilities = role_caps code_reviewer;
  head_sha = p.pushed_sha;
}

unfoldable pub built_columns : ResultParams → Job → BuildColumns → BuildColumns
built_columns p j b = record b {
  builder_identity = coalesce b.builder_identity (null_if_empty j.bound_identity);
  builder_model_family = coalesce b.builder_model_family (null_if_empty j.bound_model_family);
  head_ref = set_if p.pushed_ref b.head_ref;
  patch_diff = p.patch_diff;
  declared_blast_radius = p.declared_blast_radius;
  eng_worker_job = coalesce b.eng_worker_job (some j.id);
}

unfoldable pub remember : Text → Response → List (Text × Response) → List (Text × Response)
remember key r responses = if is_empty key then responses else responses ++ (key, r) ∷ []

-- What both updates share: the events, the lease that ends, and the response.
unfoldable pub finish_result : ResultParams → Tables → List Transition → Job → Response → Tables
finish_result p db ts row r = record db {
  store = record {
    job = row;
    events = db.store.events ++ result_events p db.store.job db.store.job.job_seq ts;
  };
  live = record (db.live) { lease_hb_due = none };
  leases = close_lease db.store.job.lease_epoch (bytes "completed") db.leases;
  responses = remember p.idempotency_key r db.responses;
}

-- `final == job.StateReviewPending`, and otherwise.
unfoldable pub result_writes :
    ℕ → ResultParams → Tables → List Transition → State → Tx (Tables × Response)
result_writes delay p db ts review_pending =
    let j = db.store.job in
    let r : Response = record {
      accepted = true;
      job_state = state_text review_pending;
      verdict = [];
      minted = false;
    } in
    let done = finish_result p db ts (built_row p j (last_seq j.job_seq ts)) r in
    elim (arm_no_eligible delay j.id j.lease_epoch p.now db.timers) [
      | none ↦ rolled_back constraint_violated
      | some timers ↦
          committed (
            record done { build = built_columns p j db.build; ci_green = false; timers = timers },
            r,
          )
    ]
result_writes delay p db ts final =
    let j = db.store.job in
    let r : Response = record {
      accepted = true;
      job_state = state_text final;
      verdict = [];
      minted = false;
    } in
    committed (finish_result p db ts (moved_on_row j final (last_seq j.job_seq ts)) r, r)

unfoldable pub fresh_result : (Text → Text) → ℕ → ResultParams → Tables → Tx (Tables × Response)
fresh_result sha256 delay p db =
    let j = db.store.job in
    let dec = decide sha256 (release_snapshot j p.now) (EngineEvent.work_result p.epoch) in
    elim dec.reject [
      | some reason ↦ rolled_back stale_epoch
      | none ↦ result_writes delay p db dec.transitions (final_state j.state dec.transitions)
    ]

-- A key that has its response already returns it and writes nothing.
unfoldable pub store_result : (Text → Text) → ℕ → ResultParams → Tables → Tx (Tables × Response)
store_result sha256 delay p db =
    if is_empty p.idempotency_key
    then fresh_result sha256 delay p db
    else elim (cached_response p.idempotency_key db.responses) [
      | some r ↦ committed (db, r)
      | none ↦ fresh_result sha256 delay p db
    ]
