-- ===== src/Store/Claim.antt =====
-- internal/store/queries.go: `ClaimReadyJob`, the atomic claim of a ready job.
pub mod Guards
use flowbee.Base.{
  ℕ, ◌+◌, ◌/◌, Bool, true, false, not, ◌&&◌, ◌||◌, if◌then◌else◌, List, ◌∷◌, Option, none, some,
}
use flowbee.Base.Lists.{any}
use flowbee.Base.Text.{Text, is_empty}
use flowbee.Job.State.{ready, leased, Role, code_reviewer, merger}
use flowbee.Job.Caps.{capabilities_satisfy}
use flowbee.Job.Record.{Job}
use flowbee.Ledger.Event.{Event, zero_payload}
use flowbee.Ledger.Event.EventKind.{lease_claimed}
use flowbee.Ledger.Cases.Shared.{is_ready}
use flowbee.Store.Tables.{
  Tables, LeaseRow, lost_race, constraint_violated, Tx, rolled_back, committed, append,
  insert_lease,
}
use flowbee.Store.Slots.{Binding, Fleet, is_text, model_slot_gate, select_account_id}

pub record ClaimParams : Type 0 where
  pub lease_id : Text
  pub identity : Text
  pub model_family : Text
  pub model : Text
  pub worker_id : Text
  pub lens : Text
  pub role : Role
  pub attested : List Text
  pub ttl : ℕ
  pub now : ℕ

abbrev pub nanoseconds : ℕ
nanoseconds = 1000000000

pub record Lease : Type 0 where
  pub lease_id : Text
  pub job_id : Text
  pub epoch : ℕ
  pub identity : Text
  pub model_family : Text
  pub ttl : ℕ
  pub granted_at : ℕ
  pub deadline : ℕ
  pub hb_due : ℕ

-- The empty text stands for NULL in the row of the job.
unfoldable pub null_if_empty : Text → Option Text
null_if_empty t = if is_empty t then none else some t

unfoldable pub own_binding : Tables → Binding
own_binding db = record {
  id = db.store.job.id;
  state = db.store.job.state;
  bound_identity = null_if_empty db.store.job.bound_identity;
  bound_model_family = null_if_empty db.store.job.bound_model_family;
  builder_identity = db.build.builder_identity;
  builder_model_family = db.build.builder_model_family;
}

-- The rows of `jobs`.
unfoldable pub all_jobs : Tables → Fleet → List Binding
all_jobs db fleet = own_binding db ∷ fleet.others

is_code_reviewer : Role → Bool
is_code_reviewer code_reviewer = true
is_code_reviewer _ = false

is_merger : Role → Bool
is_merger merger = true
is_merger _ = false

-- The first `NOT EXISTS`: the builder may not review.
unfoldable pub built_sibling : ClaimParams → Tables → Binding → Bool
built_sibling p db sib =
    is_text db.build.eng_worker_job sib.id
    && (is_text sib.bound_identity p.identity || is_text sib.bound_model_family p.model_family)

-- The second: the reviewer may not merge.
unfoldable pub reviewed_sibling : ClaimParams → Tables → Binding → Bool
reviewed_sibling p db sib =
    is_text db.build.code_reviewer_job sib.id && is_text sib.bound_identity p.identity

-- The `WHERE` of the update, next to the state.
unfoldable pub is_independent : ClaimParams → Tables → Fleet → Bool
unfolding is_code_reviewer is_merger
is_independent p db fleet =
    not (is_code_reviewer p.role && any (built_sibling p db) (all_jobs db fleet))
    && not (is_merger p.role && any (reviewed_sibling p db) (all_jobs db fleet))

-- Every guard of the claim.
unfoldable pub may_claim : ClaimParams → Tables → Fleet → Bool
may_claim p db fleet =
    is_ready db.store.job.state
    && capabilities_satisfy p.attested db.store.job.required_capabilities
    && model_slot_gate fleet db.workers p.worker_id p.identity p.model_family

unfoldable pub claimed_event : ClaimParams → Job → Event
claimed_event p j = record {
  job_id = j.id;
  job_seq = j.job_seq + 1;
  kind = lease_claimed;
  from_state = ready;
  to_state = leased;
  lease_epoch = j.lease_epoch + 1;
  actor = p.identity;
  created_at = p.now;
  payload = record zero_payload {
    lease_id = p.lease_id;
    bound_identity = p.identity;
    bound_model_family = p.model_family;
    bound_model = p.model;
  };
}

unfoldable pub claimed_row : ClaimParams → Job → Job
claimed_row p j = record j {
  state = leased;
  bound_identity = p.identity;
  bound_model_family = p.model_family;
  bound_lens = p.lens;
  lease_epoch = j.lease_epoch + 1;
  lease_id = p.lease_id;
  job_seq = j.job_seq + 1;
}

unfoldable pub claimed_lease : ClaimParams → Job → LeaseRow
claimed_lease p j = record {
  lease_id = p.lease_id;
  lease_epoch = j.lease_epoch + 1;
  identity = p.identity;
  model_family = p.model_family;
  ttl_s = p.ttl / nanoseconds;
  deadline = p.now + p.ttl;
  end_reason = none;
}

unfoldable pub granted : ClaimParams → Job → Lease
granted p j = record {
  lease_id = p.lease_id;
  job_id = j.id;
  epoch = j.lease_epoch + 1;
  identity = p.identity;
  model_family = p.model_family;
  ttl = p.ttl;
  granted_at = p.now;
  deadline = p.now + p.ttl;
  hb_due = p.now + p.ttl;
}

-- The writes of the claim, with the account and the lease rows that they leave.
unfoldable pub apply_claim : ClaimParams → Tables → Text → List LeaseRow → Tables
apply_claim p db account leases = record db {
  store = append (claimed_row p db.store.job) (claimed_event p db.store.job) db.store;
  build = record (db.build) { bound_account = account };
  live = record (db.live) {
    lease_deadline = some (p.now + p.ttl);
    lease_hb_due = some (p.now + p.ttl);
  };
  leases = leases;
}

unfoldable pub claim_with : ClaimParams → Tables → Fleet → Text → Tx (Tables × Lease)
claim_with p db fleet account =
    if not (is_independent p db fleet)
    then rolled_back lost_race
    else elim (insert_lease (claimed_lease p db.store.job) db.leases) [
      | none ↦ rolled_back constraint_violated
      | some leases ↦ committed (apply_claim p db account leases, granted p db.store.job)
    ]

unfoldable pub claim_ready_job : ClaimParams → Tables → Fleet → Tx (Tables × Lease)
claim_ready_job p db fleet =
    if not (may_claim p db fleet)
    then rolled_back lost_race
    else elim (select_account_id fleet p.model_family) [
      | none ↦ rolled_back lost_race
      | some account ↦ claim_with p db fleet account
    ]
