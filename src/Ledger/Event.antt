-- ===== src/Ledger/Event.antt =====
-- internal/ledger/ledger.go: the ledger's events. A payload sets the fields that its kind uses and
-- leaves the others at their zero value.
use flowbee.Base.{ℕ, Bool, false, Option, none, List, []}
use flowbee.Base.Text.{Text}
use flowbee.Base.Int.{ℤ, pos}
use flowbee.Job.State.{State, Role, no_role, Kind, no_kind}
use flowbee.Job.Verdict.{Verdict, SpecSignoff}

pub data EventKind : Type 0 where
  job_created lease_claimed worker_started heartbeat result_accepted lease_released : EventKind
  state_changed deps_cleared job_completed no_eligible_worker review_claimed : EventKind
  verdict_claim verdict_minted review_bounced review_approved bounce_exhausted : EventKind
  merge_handoff merge_started facts_reconciled superseded adopt_rearmed base_refreshed : EventKind
  spec_authored spec_claim spec_signoff_minted spec_bounced spec_superseded : EventKind
  issue_materialized spec_amended spec_needs_design design_resolved epic_reviewed : EventKind
  pr_opened adopted backlogged promoted issue_adopted tracking_labelled lease_revoked : EventKind
  stall_escalated agent_exited fast_cancelled cost_metered cost_escalated : EventKind
  epoch_promoted compensated unattended_merged conflict_detected rebased : EventKind
  conflict_resolved stacked_rebased janitor_unblocked test_ci_recorded : EventKind

pub record Payload : Type 0 where
  pub kind : Kind
  pub flow : Text
  pub stage : Text
  pub role : Role
  pub base_sha : Text
  pub priority : ℤ
  pub blocked_by : List Text
  pub required_capabilities : List Text
  pub task_text : Text
  pub spec_text : Text
  pub acceptance_criteria : Text
  pub lease_id : Text
  pub bound_identity : Text
  pub bound_model_family : Text
  pub bound_model : Text
  pub attempts_delta : ℕ
  pub bounces_delta : ℕ
  pub reset_counters : Bool
  pub unblock_sha : Text
  pub stuck_hint : Text
  pub review_notes : Text
  pub ci_failures : Text
  pub stall_revocations_delta : ℕ
  pub revoke_reason : Text
  pub verdict_claim : Text
  pub disposition : Text
  pub verdict : Option Verdict
  pub spec_content_hash : Text
  pub spec_version : ℕ
  pub spec_signoff : Option SpecSignoff
  pub issue_number : ℕ
  pub pr_number : ℕ
  pub cost_tokens_in_delta : ℤ
  pub cost_tokens_out_delta : ℤ
  pub cost_micro_usd_delta : ℤ
  pub escalation_reason : Text
  pub build_epoch : ℕ
  pub dead_epoch : ℕ
  pub merge_provenance : Text
  pub head_sha : Text
  pub ci_green : Bool
  pub test_job_id : Text

unfoldable pub zero_payload : Payload
zero_payload = record {
  kind = no_kind;
  flow = [];
  stage = [];
  role = no_role;
  base_sha = [];
  priority = pos 0;
  blocked_by = [];
  required_capabilities = [];
  task_text = [];
  spec_text = [];
  acceptance_criteria = [];
  lease_id = [];
  bound_identity = [];
  bound_model_family = [];
  bound_model = [];
  attempts_delta = 0;
  bounces_delta = 0;
  reset_counters = false;
  unblock_sha = [];
  stuck_hint = [];
  review_notes = [];
  ci_failures = [];
  stall_revocations_delta = 0;
  revoke_reason = [];
  verdict_claim = [];
  disposition = [];
  verdict = none;
  spec_content_hash = [];
  spec_version = 0;
  spec_signoff = none;
  issue_number = 0;
  pr_number = 0;
  cost_tokens_in_delta = pos 0;
  cost_tokens_out_delta = pos 0;
  cost_micro_usd_delta = pos 0;
  escalation_reason = [];
  build_epoch = 0;
  dead_epoch = 0;
  merge_provenance = [];
  head_sha = [];
  ci_green = false;
  test_job_id = [];
}

pub record Event : Type 0 where
  pub job_id : Text
  pub job_seq : ℕ
  pub kind : EventKind
  pub from_state : State
  pub to_state : State
  pub lease_epoch : ℕ
  pub actor : Text
  pub created_at : ℕ
  pub payload : Payload
