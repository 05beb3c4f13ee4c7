-- ===== src/Job/Record.antt =====
-- internal/job/job.go: the job projection. Counters and versions are non-negative Go ints; an instant
-- is a number of nanoseconds, with 0 for the zero time.
use flowbee.Base.{ℕ, Bool, false, Option, none, List, []}
use flowbee.Base.Text.{Text}
use flowbee.Base.Int.{ℤ, pos}
use flowbee.Job.State.{State, unset, Role, no_role, Kind, no_kind}
use flowbee.Job.Verdict.{Verdict, SpecSignoff}

pub record Job : Type 0 where
  pub id : Text
  pub kind : Kind
  pub flow : Text
  pub stage : Text
  pub state : State
  pub role : Role
  pub repo : Text
  pub chat_ref : Text
  pub spec_ref : Text
  pub parent_job : Text
  pub issue_num : ℕ
  pub pr_number : ℕ
  pub epic_id : Text
  pub is_epic : Bool
  pub epic_reviewed : Bool
  pub base_sha : Text
  pub head_sha : Text
  pub task_text : Text
  pub spec_text : Text
  pub acceptance_criteria : Text
  pub spec_content_hash : Text
  pub spec_version : ℕ
  pub spec_signoff : Option SpecSignoff
  pub blocked_by : List Text
  pub priority : ℤ
  pub enqueued_at : ℕ
  pub required_capabilities : List Text
  pub lease_id : Text
  pub lease_epoch : ℕ
  pub bound_identity : Text
  pub bound_model_family : Text
  pub bound_lens : Text
  pub last_review_notes : Text
  pub last_ci_failures : Text
  pub diff_empty : Bool
  pub attempts : ℕ
  pub max_attempts : ℕ
  pub bounces : ℕ
  pub max_bounces : ℕ
  pub stall_revocations : ℕ
  pub unblock_attempts : ℕ
  pub last_progress_sha : Text
  pub stuck_hint : Text
  pub cost_tokens_in : ℤ
  pub cost_tokens_out : ℤ
  pub cost_micro_usd : ℤ
  pub cost_ceiling_micro_usd : Option ℤ
  pub over_budget : Bool
  pub flow_id : Text
  pub escalation_reason : Text
  pub build_epoch : ℕ
  pub merge_provenance : Text
  pub verdict : Option Verdict
  pub job_seq : ℕ

-- `var j job.Job`
unfoldable pub zero_job : Job
zero_job = record {
  id = [];
  kind = no_kind;
  flow = [];
  stage = [];
  state = unset;
  role = no_role;
  repo = [];
  chat_ref = [];
  spec_ref = [];
  parent_job = [];
  issue_num = 0;
  pr_number = 0;
  epic_id = [];
  is_epic = false;
  epic_reviewed = false;
  base_sha = [];
  head_sha = [];
  task_text = [];
  spec_text = [];
  acceptance_criteria = [];
  spec_content_hash = [];
  spec_version = 0;
  spec_signoff = none;
  blocked_by = [];
  priority = pos 0;
  enqueued_at = 0;
  required_capabilities = [];
  lease_id = [];
  lease_epoch = 0;
  bound_identity = [];
  bound_model_family = [];
  bound_lens = [];
  last_review_notes = [];
  last_ci_failures = [];
  diff_empty = false;
  attempts = 0;
  max_attempts = 0;
  bounces = 0;
  max_bounces = 0;
  stall_revocations = 0;
  unblock_attempts = 0;
  last_progress_sha = [];
  stuck_hint = [];
  cost_tokens_in = pos 0;
  cost_tokens_out = pos 0;
  cost_micro_usd = pos 0;
  cost_ceiling_micro_usd = none;
  over_budget = false;
  flow_id = [];
  escalation_reason = [];
  build_epoch = 0;
  merge_provenance = [];
  verdict = none;
  job_seq = 0;
}
