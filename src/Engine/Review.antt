-- ===== src/Engine/Review.antt =====
-- internal/engine/engine.go: the arms of `Decide` for review claims and the merge branch point.
use flowbee.Base.{◌+◌, Bool, true, false, not, ◌&&◌, ◌||◌, if◌then◌else◌, Option, none, some}
use flowbee.Base.Text.{Text, bytes, text_eq}
use flowbee.Base.Int.{pos, ltb_ℤ}
use flowbee.Job.State.{
  State, spec_authoring, spec_review, ready, review_pending, code_review, mergeable, merging,
  merge_handoff, done, needs_human, needs_design,
}
use flowbee.Job.Transition.{
  Trigger, approved, bounce, bounce_exhausted, spec_signed_off, spec_amended, spec_needs_design,
  spec_superseded,
}
use flowbee.Job.Verdict.{
  Verdict, SpecSignoff, required_reviewers_or_default, verify, self_merge_disposition,
}
use flowbee.Job.Gate.{GateInputs, evaluate_gate, merge_ready, self_merge_eligible}
use flowbee.Job.SpecGate.{SpecGateInputs, evaluate_spec_gate}
use flowbee.Job.Record.{Job}
use flowbee.Ledger.Event.{EventKind}
use flowbee.Engine.Types.{
  EngineState, ReviewClaim, SpecReviewClaim, Transition, move, Decision, no_decision, rejected,
  moving, fenced,
}

unfoldable pub gate_inputs : EngineState → ReviewClaim → GateInputs
gate_inputs s c = record {
  claim = c.value;
  disp = c.disposition;
  facts = s.github;
  bounces = s.job.bounces;
  max_bounce = s.job.max_bounces;
  reviewer_rejections = c.reviewer_prior_rejections;
  policy = s.policy;
  content = s.content;
}

-- `ev.PriorApprovals+1 < s.Policy.RequiredReviewersOrDefault()`
unfoldable pub awaits_reviewers : EngineState → ReviewClaim → Bool
awaits_reviewers s c = ltb_ℤ (pos (c.prior_approvals + 1)) (required_reviewers_or_default s.policy)

unfoldable pub verdict_minted_move : Option Verdict → Transition
unfolding move
verdict_minted_move v = record (move code_review mergeable EventKind.verdict_minted) { verdict = v }

bounced_move : State → State → EventKind → Transition
unfolding move
bounced_move from to kind = record (move from to kind) { bounces_delta = 1 }

unfoldable pub approval_arm : EngineState → ReviewClaim → Option Verdict → Decision
unfolding moving move verdict_minted_move
approval_arm s c v =
    if awaits_reviewers s c
    then moving (move code_review review_pending EventKind.review_approved)
    else record (moving (verdict_minted_move v)) { verdict_mint = v }

-- `switch out.Trigger`
unfoldable pub review_arm : EngineState → ReviewClaim → Trigger → Option Verdict → Decision
unfolding rejected moving bounced_move approval_arm
review_arm s c approved v = approval_arm s c v
review_arm s c bounce v = moving (bounced_move code_review ready EventKind.review_bounced)
review_arm s c bounce_exhausted v =
    moving (bounced_move code_review needs_human EventKind.bounce_exhausted)
review_arm s c _ v = rejected (bytes "gate produced no transition")

unfoldable pub is_code_review : State → Bool
is_code_review code_review = true
is_code_review _ = false

unfoldable pub decide_review_claim : (Text → Text) → EngineState → ReviewClaim → Decision
unfolding rejected is_code_review
decide_review_claim sha256 s c =
    let out = evaluate_gate sha256 (gate_inputs s c) in
    fenced c.epoch s.epoch (
      if not (is_code_review s.job.state)
      then rejected (bytes "job not in code_review")
      else review_arm s c out.trigger out.verdict)

unfoldable pub spec_gate_inputs : EngineState → SpecReviewClaim → SpecGateInputs
spec_gate_inputs s c = record {
  claim = c.claim;
  claim_binds_to = c.claim_binds_to;
  meets_style = c.meets_style;
  meets_requirements = c.meets_requirements;
  current_spec_hash = s.spec.current_hash;
  spec_version = s.spec.version;
  reviewer_lens = s.spec.reviewer_lens;
  author_lens = s.spec.author_lens;
  bounces = s.job.bounces;
  max_bounce = s.job.max_bounces;
  reviewer_rejections = c.reviewer_prior_rejections;
  amended_hash = c.amended_hash;
  amended_version = c.amended_version;
}

signed_decision : EventKind → Option SpecSignoff → Decision
unfolding moving move
signed_decision kind signoff =
    record (moving (record (move spec_review done kind) { spec_signoff = signoff })) {
      spec_mint = signoff;
    }

-- `switch out.Trigger`; an epic has no author to bounce to.
unfoldable pub spec_review_arm : Job → Trigger → Option SpecSignoff → Decision
unfolding rejected moving move bounced_move signed_decision
spec_review_arm j spec_signed_off s = signed_decision EventKind.spec_signoff_minted s
spec_review_arm j spec_amended s = signed_decision EventKind.spec_amended s
spec_review_arm j spec_needs_design s =
    moving (move spec_review needs_design EventKind.spec_needs_design)
spec_review_arm j spec_superseded s =
    moving (move spec_review spec_authoring EventKind.spec_superseded)
spec_review_arm j bounce s =
    if j.is_epic
    then moving (bounced_move spec_review needs_human EventKind.bounce_exhausted)
    else moving (bounced_move spec_review spec_authoring EventKind.spec_bounced)
spec_review_arm j bounce_exhausted s =
    moving (bounced_move spec_review needs_human EventKind.bounce_exhausted)
spec_review_arm j _ s = rejected (bytes "spec gate produced no transition")

unfoldable pub is_spec_review : State → Bool
is_spec_review spec_review = true
is_spec_review _ = false

unfoldable pub decide_spec_review_claim : (Text → Text) → EngineState → SpecReviewClaim → Decision
unfolding rejected is_spec_review
decide_spec_review_claim sha256 s c =
    let out = evaluate_spec_gate sha256 (spec_gate_inputs s c) in
    fenced c.epoch s.epoch (
      if not (is_spec_review s.job.state)
      then rejected (bytes "job not in spec_review")
      else spec_review_arm s.job out.trigger out.signoff)

-- `!job.MergeReady(s.GitHub) || !s.Job.Verdict.Verify(…)`
unfoldable pub merge_blocked : (Text → Text) → EngineState → Verdict → Bool
merge_blocked sha256 s v =
    not (merge_ready s.github) || not (verify sha256 v s.github.head_sha s.github.base_sha)

unfoldable pub takes_self_merge : (Text → Text) → EngineState → Verdict → Bool
takes_self_merge sha256 s v =
    text_eq v.disposition self_merge_disposition
    && self_merge_eligible sha256 v s.github s.content s.policy

unfoldable pub merge_arm : (Text → Text) → EngineState → Option Verdict → Decision
unfolding moving move no_decision
merge_arm sha256 s none = no_decision
merge_arm sha256 s (some v) =
    if merge_blocked sha256 s v
    then no_decision
    else if takes_self_merge sha256 s v
    then moving (move mergeable merging EventKind.merge_started)
    else moving (move mergeable merge_handoff EventKind.merge_handoff)

unfoldable pub is_mergeable : State → Bool
is_mergeable mergeable = true
is_mergeable _ = false

unfoldable pub decide_merge_dispatch : (Text → Text) → EngineState → Decision
unfolding rejected is_mergeable
decide_merge_dispatch sha256 s =
    if not (is_mergeable s.job.state)
    then rejected (bytes "job not mergeable")
    else merge_arm sha256 s s.job.verdict
