-- ===== src/Store/Review.antt =====
-- internal/store/flow.go: `ClaimReviewJob`, the atomic claim of the code-review gate.
use flowbee.Base.{
  ℕ, ◌+◌, ◌/◌, Bool, true, false, not, ◌&&◌, ◌||◌, if◌then◌else◌, List, [], none, some,
}
use flowbee.Base.Lists.{any}
use flowbee.Base.Text.{Text, text_eq}
use flowbee.Job.State.{State, review_pending, code_review, code_reviewer}
use flowbee.Job.Caps.{capabilities_satisfy}
use flowbee.Job.Record.{Job}
use flowbee.Ledger.Event.{Event, zero_payload}
use flowbee.Ledger.Event.EventKind.{review_claimed}
use flowbee.Ledger.Cases.Shared.{stage_review}
use flowbee.Store.Tables.{
  Tables, LeaseRow, lost_race, no_capacity, constraint_violated, Tx, rolled_back, committed, append,
  insert_lease,
}
use flowbee.Store.Slots.{Binding, Fleet, is_text, model_slot_gate}
use flowbee.Store.Claim.{Lease, all_jobs, nanoseconds}
use flowbee.Store.Panel.{approved_in_round}

pub record ClaimReviewParams : Type 0 where
  pub lease_id : Text
  pub identity : Text
  pub model_family : Text
  pub model : Text
  pub lens : Text
  pub attested : List Text
  pub ttl : ℕ
  pub now : ℕ

unfoldable pub is_review_pending : State → Bool
is_review_pending review_pending = true
is_review_pending _ = false

-- `COALESCE(jobs.eng_worker_job, jobs.id)`
unfoldable pub build_job : Tables → Text
build_job db = elim db.build.eng_worker_job [ none ↦ db.store.job.id | some id ↦ id ]

unfoldable pub built_by : ClaimReviewParams → Tables → Binding → Bool
built_by p db sib =
    text_eq sib.id (build_job db)
    && (is_text sib.builder_identity p.identity || is_text sib.builder_model_family p.model_family)

-- The two `NOT EXISTS` of the update: neither the builder, nor one who has approved in this round.
unfoldable pub may_review : ClaimReviewParams → Tables → Fleet → Bool
may_review p db fleet =
    not (any (built_by p db) (all_jobs db fleet))
    && not (approved_in_round p.identity db.store.events)

unfoldable pub review_claimed_event : ClaimReviewParams → Job → Event
review_claimed_event p j = record {
  job_id = j.id;
  job_seq = j.job_seq + 1;
  kind = review_claimed;
  from_state = review_pending;
  to_state = code_review;
  lease_epoch = j.lease_epoch + 1;
  actor = p.identity;
  created_at = p.now;
  payload = record zero_payload {
    lease_id = p.lease_id;
    bound_identity = p.identity;
    bound_model_family = p.model_family;
    bound_model = p.model;
  };
}

unfoldable pub review_claimed_row : ClaimReviewParams → Job → Job
review_claimed_row p j = record j {
  state = code_review;
  role = code_reviewer;
  stage = stage_review;
  bound_identity = p.identity;
  bound_model_family = p.model_family;
  bound_lens = p.lens;
  lease_epoch = j.lease_epoch + 1;
  lease_id = p.lease_id;
  job_seq = j.job_seq + 1;
}

unfoldable pub review_lease : ClaimReviewParams → Job → LeaseRow
review_lease p j = record {
  lease_id = p.lease_id;
  lease_epoch = j.lease_epoch + 1;
  identity = p.identity;
  model_family = p.model_family;
  ttl_s = p.ttl / nanoseconds;
  deadline = p.now + p.ttl;
  end_reason = none;
}

unfoldable pub granted_review : ClaimReviewParams → Job → Lease
granted_review p j = record {
  lease_id = p.lease_id;
  job_id = j.id;
  epoch = j.lease_epoch + 1;
  identity = p.identity;
  model_family = p.model_family;
  ttl = p.ttl;
  granted_at = p.now;
  deadline = p.now + p.ttl;
  hb_due = p.now + p.ttl;
}

unfoldable pub apply_review_claim : ClaimReviewParams → Tables → List LeaseRow → Tables
apply_review_claim p db leases = record db {
  store = append (review_claimed_row p db.store.job) (review_claimed_event p db.store.job) db.store;
  live = record (db.live) {
    lease_deadline = some (p.now + p.ttl);
    lease_hb_due = some (p.now + p.ttl);
  };
  leases = leases;
}

-- A full slot budget is its own error here, where `ClaimReadyJob` makes it a lost race.
unfoldable pub claim_review_job : ClaimReviewParams → Tables → Fleet → Tx (Tables × Lease)
claim_review_job p db fleet =
    let j = db.store.job in
    if not (is_review_pending j.state && capabilities_satisfy p.attested j.required_capabilities)
    then rolled_back lost_race
    else if not (model_slot_gate fleet db.workers [] p.identity p.model_family)
    then rolled_back no_capacity
    else if not (may_review p db fleet)
    then rolled_back lost_race
    else elim (insert_lease (review_lease p j) db.leases) [
      | none ↦ rolled_back constraint_violated
      | some leases ↦ committed (apply_review_claim p db leases, granted_review p j)
    ]
