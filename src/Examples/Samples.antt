-- ===== src/Examples/Samples.antt =====
-- A job on its way through internal/engine: its reconciled facts, its policy and its states. The
-- digest stands for sha256.
use flowbee.Base.{true, false, [], some}
use flowbee.Base.Text.{Text, bytes}
use flowbee.Base.Int.{pos}
use flowbee.Content.{Result}
use flowbee.Job.State.{State, build, default_max_bounces, default_max_attempts}
use flowbee.Job.Verdict.{
  Verdict, Policy, DomainBFacts, approved_value, self_merge_disposition, mint_verdict,
}
use flowbee.Job.Gate.{GateInputs}
use flowbee.Job.Record.{Job, zero_job}
use flowbee.Liveness.{RungSet, ok, frozen, abstain}
use flowbee.Engine.Types.{EngineState, SpecState}

abbrev pub digest : Text → Text
digest t = t

abbrev pub head : Text
head = bytes "abc123"

abbrev pub base : Text
base = bytes "def456"

abbrev pub green_facts : DomainBFacts
green_facts = record {
  pr_exists = true;
  pr_number = 7;
  head_sha = head;
  base_sha = base;
  ci_green = true;
  merged = false;
  mergeable_state = bytes "clean";
}

abbrev pub unknown_facts : DomainBFacts
unknown_facts = record green_facts { mergeable_state = bytes "UNKNOWN" }

abbrev pub open_policy : Policy
open_policy = record { allow_self_merge = true; required_reviewers = pos 1 }

abbrev pub clear_diff : Result
clear_diff = record {
  denylist_clear = true;
  blast_radius_consistent = true;
  static_checks_pass = true;
  denylist_hits = [];
  undeclared_paths = [];
  static_failures = [];
}

abbrev pub self_merge_verdict : Verdict
self_merge_verdict = mint_verdict digest approved_value self_merge_disposition head base

abbrev pub job_in : State → Job
job_in s = record zero_job {
  id = bytes "job-1";
  kind = build;
  state = s;
  max_attempts = default_max_attempts;
  max_bounces = default_max_bounces;
  verdict = some self_merge_verdict;
}

abbrev pub sample_spec : SpecState
sample_spec = record {
  current_hash = bytes "sha256:11";
  version = 1;
  author_lens = bytes "claude";
  reviewer_lens = bytes "codex";
}

-- The engine's snapshot of the job in a state, at epoch 3.
abbrev pub state_in : State → EngineState
state_in s = record {
  job = job_in s;
  now = 0;
  epoch = 3;
  github = green_facts;
  policy = open_policy;
  spec = sample_spec;
  content = some clear_diff;
}

abbrev pub sample_inputs : GateInputs
sample_inputs = record {
  claim = approved_value;
  disp = self_merge_disposition;
  facts = unknown_facts;
  bounces = 1;
  max_bounce = default_max_bounces;
  reviewer_rejections = 1;
  policy = open_policy;
  content = some clear_diff;
}

-- An agent that thinks: its output is frozen, past its soft deadline, and it says it is well.
abbrev pub thinking : RungSet
thinking = record {
  health = ok;
  rung1 = frozen;
  rung2 = abstain;
  rung3 = record { soft_crossed = true; absolute_cap = false; heartbeat_stale = false };
  circuit_breaker_tripped = true;
}
