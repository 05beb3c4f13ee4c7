-- ===== src/Job/SpecGate.antt =====
-- internal/job/verdict.go: the spec-review gate, `EvaluateSpecGate`.
pub mod Decisions
use flowbee.Base.{
  ℕ, ◌+◌, Bool, true, false, not, ◌&&◌, if◌then◌else◌, List, [], Option, none, some, leb,
}
use flowbee.Base.Text.{Text, bytes, text_eq, is_empty}
use flowbee.Job.Transition.{
  Trigger, bounce, bounce_exhausted, spec_signed_off, spec_amended, spec_needs_design,
  spec_superseded,
}
use flowbee.Job.Verdict.{
  SpecSignoff, mint_spec_signoff, signed_off_value, amended_value, needs_design_value,
}
use flowbee.Job.Gate.{max_reviewer_rejections}

pub record SpecGateInputs : Type 0 where
  pub claim : Text
  pub claim_binds_to : Text
  pub meets_style : Bool
  pub meets_requirements : Bool
  pub current_spec_hash : Text
  pub spec_version : ℕ
  pub reviewer_lens : Text
  pub author_lens : Text
  pub bounces : ℕ
  pub max_bounce : ℕ
  pub reviewer_rejections : ℕ
  pub amended_hash : Text
  pub amended_version : ℕ

pub record SpecGateOutcome : Type 0 where
  pub trigger : Trigger
  pub signoff : Option SpecSignoff
  pub amended_hash : Text
  pub amended_version : ℕ
  pub reason : Text

unfoldable pub spec_outcome : Trigger → Text → SpecGateOutcome
spec_outcome t reason = record {
  trigger = t;
  signoff = none;
  amended_hash = [];
  amended_version = 0;
  reason = reason;
}

-- An amendment that changes nothing is none.
unfoldable pub is_amendment : SpecGateInputs → Bool
is_amendment g =
    text_eq g.claim amended_value
    && not (is_empty g.amended_hash)
    && not (text_eq g.amended_hash g.current_spec_hash)

unfoldable pub meets_conjunction : SpecGateInputs → Bool
meets_conjunction g = text_eq g.claim signed_off_value && g.meets_style && g.meets_requirements

-- `in.AuthorLens != "" && in.ReviewerLens == in.AuthorLens`
unfoldable pub same_lens : SpecGateInputs → Bool
same_lens g = not (is_empty g.author_lens) && text_eq g.reviewer_lens g.author_lens

unfoldable pub spec_bounce_arm : SpecGateInputs → SpecGateOutcome
spec_bounce_arm g =
    if leb max_reviewer_rejections (g.reviewer_rejections + 1)
    then spec_outcome bounce_exhausted (bytes "max_reviewer_rejections reached")
    else if leb g.max_bounce (g.bounces + 1)
    then spec_outcome bounce_exhausted (bytes "max_bounces reached")
    else spec_outcome bounce (bytes "changes_requested (conjunction not met)")

unfoldable pub amend_arm : (Text → Text) → SpecGateInputs → SpecGateOutcome
amend_arm sha256 g = record {
  trigger = spec_amended;
  signoff = some (mint_spec_signoff sha256 g.amended_hash g.amended_version g.reviewer_lens);
  amended_hash = g.amended_hash;
  amended_version = g.amended_version;
  reason = bytes "amended in place + signed off from amended bytes (F4)";
}

unfoldable pub sign_off_arm : (Text → Text) → SpecGateInputs → SpecGateOutcome
sign_off_arm sha256 g = record {
  trigger = spec_signed_off;
  signoff = some (mint_spec_signoff sha256 g.current_spec_hash g.spec_version g.reviewer_lens);
  amended_hash = [];
  amended_version = 0;
  reason = bytes "signed off from reviewed bytes";
}

unfoldable pub evaluate_spec_gate : (Text → Text) → SpecGateInputs → SpecGateOutcome
evaluate_spec_gate sha256 g =
    if not (text_eq g.claim_binds_to g.current_spec_hash)
    then spec_outcome spec_superseded (bytes "claim binds to a stale spec_content_hash")
    else if same_lens g
    then spec_outcome bounce (bytes "reviewer lens must differ from author lens (Â§5.5)")
    else if text_eq g.claim needs_design_value
    then spec_outcome spec_needs_design (bytes "needs human design input (design fork)")
    else if is_amendment g
    then amend_arm sha256 g
    else if meets_conjunction g
    then sign_off_arm sha256 g
    else spec_bounce_arm g
