-- ===== src/Examples/Build.antt =====
-- A build that is claimed, returned with its result, and approved by a reviewer, run through the
-- transactions of internal/store.
use flowbee.Base.{◌≡◌, refl, Bool, true, false, [], ◌∷◌, none, arith}
use flowbee.Base.Text.{bytes, is_empty, text_eq}
use flowbee.Job.State.{code_reviewer, unset, ready, build, eng_worker, role_caps, has_active_lease}
use flowbee.Job.Record.{zero_job}
use flowbee.Ledger.Event.{Event, EventKind, zero_payload}
use flowbee.Ledger.Fold.{
  fold, fold_from, apply_event, fold_kind, sync_notes, sync_gate, sync_caps, sync_role,
  is_human_gate,
}
use flowbee.Ledger.Cases.Board.{job_created_case}
use flowbee.Ledger.Cases.Shared.{is_ready}
use flowbee.Engine.Review.{is_mergeable}
use flowbee.Liveness.{unknown, unknown_class, abstain}
use flowbee.Store.Row.{JobStore}
use flowbee.Store.Tables.{Tables}
use flowbee.Store.Slots.{Fleet}
use flowbee.Store.Claim.{ClaimParams}
use flowbee.Store.Lifecycle.Soundness.{IsSound}
use flowbee.Examples.Samples.{digest, head, base, green_facts, open_policy, clear_diff}
use flowbee.Examples.Replay.{event}
use flowbee.Job.Caps.{capabilities_satisfy, has_prefix, satisfied}
use flowbee.Store.Claim.{
  apply_claim, claim_ready_job, claim_with, claimed_lease, granted, is_independent, may_claim,
}
use flowbee.Store.Slots.{
  advertised, legacy_slot_gate, model_slot_gate, select_account_id, slot_gate_of, worker_of_id,
  worker_of_identity,
}
use flowbee.Store.Tables.{Response, Tx, rolled_back, committed, insert_lease}
use flowbee.Job.Verdict.{approved_value, handoff_disposition}
use flowbee.Store.Result.{ResultParams, store_result}
use flowbee.Store.Review.{ClaimReviewParams, claim_review_job}
use flowbee.Store.Verdicts.{ReviewInputs, ReviewResultParams, fresh_review}
use flowbee.Base.Lists.{all}
use flowbee.Job.Caps.{have}
use flowbee.Base.Lists.{any}
use flowbee.Base.Lists.{keep}
use flowbee.Base.Decimal.{decimal}
use flowbee.Engine.{decide}
use flowbee.Engine.Lease.{decide_work_result, work_result_arm}
use flowbee.Engine.Review.{
  approval_arm, awaits_reviewers, decide_review_claim, gate_inputs, is_code_review, review_arm,
  verdict_minted_move,
}
use flowbee.Engine.Types.{fenced, move, moving, rejected}
use flowbee.Job.Gate.{approved_arm, evaluate_gate, gate_predicate}
use flowbee.Job.Verdict.{required_reviewers_or_default}
use flowbee.Ledger.Cases.Shared.{set_if}
use flowbee.Store.Claim.{Lease, all_jobs, claimed_event, claimed_row, null_if_empty, own_binding}
use flowbee.Store.Panel.{
  approved_in_round, approves_after, claims, distinct_actors, last_opened, opens_round, opens_tally,
  prior_approvals, reviewer_rejections,
}
use flowbee.Store.Release.{release_snapshot}
use flowbee.Store.Result.{
  arm_no_eligible, built_columns, built_row, cached_response, final_state, finish_result,
  fresh_result, last_seq, moved_on_row, no_eligible_id, remember, result_event, result_events,
  result_writes,
}
use flowbee.Store.Review.{
  apply_review_claim, build_job, built_by, is_review_pending, may_review, review_claimed_event,
  review_claimed_row, review_lease,
}
use flowbee.Store.Slots.{is_text}
use flowbee.Store.Tables.{
  append, close_lease, coalesce, end_lease, insert_timer, is_lease_conflict, is_open,
}
use flowbee.Store.Verdicts.{
  epoch_gate, facts_moved, judged_facts, prior_rejections, review_claim_of, review_snapshot,
}
use flowbee.Store.Verdicts.{minted_of, review_response}

abbrev pub created : Event
created =
    record (event 1 EventKind.job_created unset ready (record zero_payload {
      kind = build;
      role = eng_worker;
      base_sha = base;
      required_capabilities = role_caps eng_worker;
    })) { job_id = bytes "j" }

abbrev pub born : JobStore
born = record { job = fold (created ∷ []); events = created ∷ [] }

abbrev pub opening : Tables
opening = record {
  store = born;
  build = record {
    builder_identity = none;
    builder_model_family = none;
    head_ref = [];
    patch_diff = [];
    declared_blast_radius = [];
    reservation_paths = [];
    reservation_wide = false;
    eng_worker_job = none;
    code_reviewer_job = none;
    bound_account = [];
  };
  live = record {
    lease_deadline = none;
    lease_hb_due = none;
    phase_deadline_at = none;
    last_heartbeat_at = none;
    agent_health = unknown;
    rung1_class = unknown_class;
    rung2_last_verdict = abstain;
    rung2_window_head = [];
    rung2_window_started_at = none;
    ci_running = false;
  };
  ci_green = false;
  leases = [];
  timers = [];
  responses = [];
  workers = [];
  alarms = [];
}

abbrev pub nobody : Fleet
nobody = record { others = []; slots = []; accounts = [] }

pub born-IsSound : IsSound born
unfolding fold fold_from apply_event fold_kind job_created_case sync_caps sync_role sync_gate
    sync_notes is_human_gate zero_payload zero_job is_ready is_empty is_mergeable bytes
born-IsSound = record {
  replayed = refl;
  builds = refl;
  placed = refl;
  worked = λ w. absurd (ground arith);
  unjudged = λ h. refl;
  based = refl;
}

-- What a transaction leaves, with the tables before it if it is rolled back.
abbrev pub tables_of : {A : Type 0} → Tables → Tx (Tables × A) → Tables
tables_of before (committed (db, a)) = db
tables_of before (rolled_back x) = before

abbrev pub result_of : {A : Type 0} → A → Tx (Tables × A) → A
result_of other (committed (db, a)) = a
result_of other (rolled_back x) = other

abbrev pub no_lease : Lease
no_lease = record {
  lease_id = [];
  job_id = [];
  epoch = 0;
  identity = [];
  model_family = [];
  ttl = 0;
  granted_at = 0;
  deadline = 0;
  hb_due = 0;
}

abbrev pub no_response : Response
no_response = record { accepted = false; job_state = []; verdict = []; minted = false }

-- The claim of the build.
abbrev pub taking : ClaimParams
taking = record {
  lease_id = bytes "l1";
  identity = bytes "ann";
  model_family = bytes "claude";
  model = bytes "opus";
  worker_id = bytes "w1";
  lens = [];
  role = eng_worker;
  attested = role_caps eng_worker;
  ttl = 60;
  now = 5;
}

abbrev pub taken : Tables
taken = tables_of opening (claim_ready_job taking opening nobody)

abbrev pub claimed : Lease
claimed = result_of no_lease (claim_ready_job taking opening nobody)

-- A transaction that commits leaves its tables.
abbrev pub is_committed : {A : Type 0} → Tx A → Bool
is_committed (committed a) = true
is_committed (rolled_back x) = false

pub commits :
    {A : Type 0} (before : Tables) (other : A) (x : Tx (Tables × A))
    → is_committed x ≡ true
    → x ≡ committed (tables_of before x, result_of other x)
commits before a (committed (db, b)) h = refl
commits before a (rolled_back e) h = absurd (ground arith)

pub took : is_committed (claim_ready_job taking opening nobody) ≡ true
unfolding fold fold_from apply_event fold_kind job_created_case sync_caps sync_role sync_gate
    sync_notes is_human_gate zero_payload zero_job is_ready is_empty role_caps is_mergeable bytes
    text_eq any all claim_ready_job may_claim model_slot_gate slot_gate_of advertised
    legacy_slot_gate worker_of_id select_account_id claim_with is_independent insert_lease
    claimed_lease granted apply_claim claimed_row claimed_event append capabilities_satisfy
    satisfied has_prefix have keep
took = refl

-- The worker returns its build.
abbrev pub giving : ResultParams
giving = record {
  epoch = 1;
  idempotency_key = bytes "k";
  now = 20;
  pushed_ref = bytes "br";
  pushed_sha = head;
  patch_diff = bytes "d";
  declared_blast_radius = [];
}

abbrev pub built : Tables
built = tables_of taken (store_result digest 30 giving taken)

abbrev pub answer : Response
answer = result_of no_response (store_result digest 30 giving taken)

pub gave : is_committed (store_result digest 30 giving taken) ≡ true
unfolding fold fold_from apply_event fold_kind job_created_case sync_caps sync_role sync_gate
    sync_notes is_human_gate zero_payload zero_job is_ready is_empty role_caps is_mergeable bytes
    text_eq any all claim_ready_job may_claim model_slot_gate slot_gate_of advertised
    legacy_slot_gate worker_of_id select_account_id claim_with is_independent insert_lease
    claimed_lease granted apply_claim claimed_row claimed_event append capabilities_satisfy
    satisfied has_prefix have keep store_result cached_response fresh_result result_writes
    arm_no_eligible insert_timer no_eligible_id decimal release_snapshot decide decide_work_result
    work_result_arm fenced moving move final_state rejected has_active_lease
gave = refl

-- A reviewer of another family takes the review and approves.
abbrev pub reviewing : ClaimReviewParams
reviewing = record {
  lease_id = bytes "l2";
  identity = bytes "bob";
  model_family = bytes "codex";
  model = bytes "gpt";
  lens = [];
  attested = role_caps code_reviewer;
  ttl = 60;
  now = 30;
}

abbrev pub judging : Tables
judging = tables_of built (claim_review_job reviewing built nobody)

pub opened : is_committed (claim_review_job reviewing built nobody) ≡ true
unfolding fold fold_from apply_event fold_kind job_created_case sync_caps sync_role sync_gate
    sync_notes is_human_gate zero_payload zero_job is_ready is_empty role_caps is_mergeable bytes
    text_eq any all claim_ready_job may_claim model_slot_gate slot_gate_of advertised
    legacy_slot_gate worker_of_id select_account_id claim_with is_independent insert_lease
    claimed_lease granted apply_claim claimed_row claimed_event append capabilities_satisfy
    satisfied has_prefix have keep store_result cached_response fresh_result result_writes
    arm_no_eligible insert_timer no_eligible_id decimal release_snapshot decide decide_work_result
    work_result_arm fenced moving move final_state rejected has_active_lease built_row moved_on_row
    finish_result result_events result_event close_lease end_lease is_open last_seq set_if
    built_columns coalesce null_if_empty remember claim_review_job is_review_pending may_review
    approved_in_round last_opened approves_after claims opens_round opens_tally built_by is_text
    build_job all_jobs own_binding is_lease_conflict review_lease worker_of_identity
opened = refl

abbrev pub review_claimed : Lease
review_claimed = result_of no_lease (claim_review_job reviewing built nobody)

abbrev pub approving : ReviewResultParams
approving = record {
  epoch = 2;
  claim = approved_value;
  disposition = handoff_disposition;
  idempotency_key = bytes "r";
  notes = [];
  reviewer_head = [];
  now = 40;
}

abbrev pub inputs : ReviewInputs
inputs = record {
  policy = open_policy;
  facts = green_facts;
  check = clear_diff;
  epoch_ci = [];
  adopted = false;
}

abbrev pub approved_build : Tables
approved_build = tables_of judging (fresh_review digest approving inputs judging)

abbrev pub verdict_answer : Response
verdict_answer = result_of no_response (fresh_review digest approving inputs judging)

pub judged : is_committed (fresh_review digest approving inputs judging) ≡ true
unfolding fold fold_from apply_event fold_kind job_created_case sync_caps sync_role sync_gate
    sync_notes is_human_gate zero_payload zero_job is_ready is_empty role_caps is_mergeable bytes
    text_eq any all claim_ready_job may_claim model_slot_gate slot_gate_of advertised
    legacy_slot_gate worker_of_id select_account_id claim_with is_independent insert_lease
    claimed_lease granted apply_claim claimed_row claimed_event append capabilities_satisfy
    satisfied has_prefix have keep store_result cached_response fresh_result result_writes
    arm_no_eligible insert_timer no_eligible_id decimal release_snapshot decide decide_work_result
    work_result_arm fenced moving move final_state rejected has_active_lease built_row moved_on_row
    finish_result result_events result_event close_lease end_lease is_open last_seq set_if
    built_columns coalesce null_if_empty remember claim_review_job is_review_pending may_review
    approved_in_round last_opened approves_after claims opens_round opens_tally built_by is_text
    build_job all_jobs own_binding is_lease_conflict review_lease worker_of_identity
    apply_review_claim review_claimed_row review_claimed_event fresh_review decide_review_claim
    is_code_review gate_inputs evaluate_gate gate_predicate approved_arm review_arm approval_arm
    verdict_minted_move awaits_reviewers required_reviewers_or_default prior_approvals
    distinct_actors review_claim_of review_snapshot judged_facts epoch_gate facts_moved
    prior_rejections reviewer_rejections
judged = refl

pub is_minted : verdict_answer.minted ≡ true
unfolding fold fold_from apply_event fold_kind job_created_case sync_caps sync_role sync_gate
    sync_notes is_human_gate zero_payload zero_job is_ready is_empty role_caps is_mergeable bytes
    text_eq any all claim_ready_job may_claim model_slot_gate slot_gate_of advertised
    legacy_slot_gate worker_of_id select_account_id claim_with is_independent insert_lease
    claimed_lease granted apply_claim claimed_row claimed_event append capabilities_satisfy
    satisfied has_prefix have keep store_result cached_response fresh_result result_writes
    arm_no_eligible insert_timer no_eligible_id decimal release_snapshot decide decide_work_result
    work_result_arm fenced moving move final_state rejected has_active_lease built_row moved_on_row
    finish_result result_events result_event close_lease end_lease is_open last_seq set_if
    built_columns coalesce null_if_empty remember claim_review_job is_review_pending may_review
    approved_in_round last_opened approves_after claims opens_round opens_tally built_by is_text
    build_job all_jobs own_binding is_lease_conflict review_lease worker_of_identity
    apply_review_claim review_claimed_row review_claimed_event fresh_review decide_review_claim
    is_code_review gate_inputs evaluate_gate gate_predicate approved_arm review_arm approval_arm
    verdict_minted_move awaits_reviewers required_reviewers_or_default prior_approvals
    distinct_actors review_claim_of review_snapshot judged_facts epoch_gate facts_moved
    prior_rejections reviewer_rejections review_response minted_of
is_minted = refl

pub is_first_approval :
    approved_in_round judging.store.job.bound_identity judging.store.events ≡ false
unfolding fold fold_from apply_event fold_kind job_created_case sync_caps sync_role sync_gate
    sync_notes is_human_gate zero_payload zero_job is_ready is_empty role_caps is_mergeable bytes
    text_eq any all claim_ready_job may_claim model_slot_gate slot_gate_of advertised
    legacy_slot_gate worker_of_id select_account_id claim_with is_independent insert_lease
    claimed_lease granted apply_claim claimed_row claimed_event append capabilities_satisfy
    satisfied has_prefix have keep store_result cached_response fresh_result result_writes
    arm_no_eligible insert_timer no_eligible_id decimal release_snapshot decide decide_work_result
    work_result_arm fenced moving move final_state rejected has_active_lease built_row moved_on_row
    finish_result result_events result_event close_lease end_lease is_open last_seq set_if
    built_columns coalesce null_if_empty remember claim_review_job is_review_pending may_review
    approved_in_round last_opened approves_after claims opens_round opens_tally built_by is_text
    build_job all_jobs own_binding is_lease_conflict review_lease worker_of_identity
    apply_review_claim review_claimed_row review_claimed_event
is_first_approval = refl
