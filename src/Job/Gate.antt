-- ===== src/Job/Gate.antt =====
-- internal/job/verdict.go: the code-review gate, `EvaluateGate`, and the self-merge predicate.
pub mod Decisions
use flowbee.Base.{
  ℕ, suc, ◌+◌, Bool, true, false, not, ◌&&◌, if◌then◌else◌, List, [], ◌∷◌, Option, none, some, leb,
  ◌++◌, map,
}
use flowbee.Base.Text.{Text, bytes, text_eq, is_empty}
use flowbee.Base.Strings.{equal_fold}
use flowbee.Content.{Result, eligible}
use flowbee.Job.Transition.{Trigger, approved, bounce, bounce_exhausted}
use flowbee.Job.Verdict.{
  Verdict, Policy, DomainBFacts, mint_verdict, verify, approved_value, changes_requested_value,
  self_merge_disposition, handoff_disposition,
}

pub record GateInputs : Type 0 where
  pub claim : Text
  pub disp : Text
  pub facts : DomainBFacts
  pub bounces : ℕ
  pub max_bounce : ℕ
  pub reviewer_rejections : ℕ
  pub policy : Policy
  pub content : Option Result

pub record GateOutcome : Type 0 where
  pub trigger : Trigger
  pub verdict : Option Verdict
  pub reason : Text

abbrev pub max_reviewer_rejections : ℕ
max_reviewer_rejections = 6

unfoldable pub gate_predicate : DomainBFacts → Bool
gate_predicate f =
    f.pr_exists
    && f.ci_green
    && not f.merged
    && not (is_empty f.head_sha)
    && not (is_empty f.base_sha)

unfoldable pub merge_ready : DomainBFacts → Bool
merge_ready f = gate_predicate f && not (equal_fold f.mergeable_state (bytes "unknown"))

-- `chk == nil || !chk.Eligible()`, negated.
unfoldable pub content_eligible : Option Result → Bool
content_eligible none = false
content_eligible (some r) = eligible r

unfoldable pub self_merge_eligible :
    (Text → Text) → Verdict → DomainBFacts → Option Result → Policy → Bool
self_merge_eligible sha256 v gh chk p =
    if not p.allow_self_merge
    then false
    else if not (content_eligible chk)
    then false
    else if not (merge_ready gh)
    then false
    else verify sha256 v gh.head_sha gh.base_sha

abbrev pub reason_moved : Text
reason_moved = bytes "SHA moved since review (binding superseded)"

content_reason : Result → Text
content_reason r =
    if not r.denylist_clear
    then bytes "denylisted path touched (forced human gate, Â§9.2a)"
    else if not r.blast_radius_consistent
    then bytes "declared blast-radius does not match the actual diff (tamper signal, Â§9.2b)"
    else if not r.static_checks_pass
    then bytes "deterministic static checks failed (Â§9.2c)"
    else reason_moved

unfoldable pub deny_reason : Option Result → Policy → Text
unfolding content_reason
deny_reason chk p =
    if not p.allow_self_merge then bytes "policy human-merge gate is ON (Branch A)" else elim chk [
      | none ↦ bytes "no content-integrity gate ran (untrusted diff not cleared)"
      | some r ↦ content_reason r
    ]

unfoldable pub outcome : Trigger → Text → GateOutcome
outcome t reason = record { trigger = t; verdict = none; reason = reason }

-- The bounce, or its exhaustion at `max_bounces`, with the two reasons given.
unfoldable pub bounce_or_exhaust : GateInputs → Text → Text → GateOutcome
bounce_or_exhaust g exhausted again =
    if leb g.max_bounce (g.bounces + 1)
    then outcome bounce_exhausted exhausted
    else outcome bounce again

-- `case VerdictChangesRequested`
unfoldable pub changes_requested_arm : GateInputs → GateOutcome
changes_requested_arm g =
    if leb max_reviewer_rejections (g.reviewer_rejections + 1)
    then outcome bounce_exhausted (bytes "max_reviewer_rejections reached")
    else bounce_or_exhaust g (bytes "max_bounces reached") (bytes "changes_requested")

-- Whether the arm of an approval is promoted to self_merge.
unfoldable pub promotes : (Text → Text) → GateInputs → Bool
promotes sha256 g =
    text_eq g.disp self_merge_disposition
    && self_merge_eligible sha256
        (mint_verdict sha256 approved_value self_merge_disposition g.facts.head_sha
          g.facts.base_sha)
        g.facts g.content g.policy

pub approval_reason : (Text → Text) → GateInputs → Text
approval_reason sha256 g =
    if promotes sha256 g
    then bytes
        "approved from reconciled facts -> self_merge eligible (denylist-clear, blast-radius-consistent, static-checks-green)"
    else if text_eq g.disp self_merge_disposition
    then bytes "self_merge requested but " ++ deny_reason g.content g.policy
    else bytes "approved from reconciled facts -> handoff"

-- `case VerdictApproved`
unfoldable pub approved_arm : (Text → Text) → GateInputs → GateOutcome
approved_arm sha256 g =
    if not (gate_predicate g.facts)
    then bounce_or_exhaust g (bytes "approval claim failed reconciliation")
        (bytes "approval claim failed reconciliation (CI not green / PR drift)")
    else record {
      trigger = approved;
      verdict = some (
          mint_verdict sha256 approved_value
            (if promotes sha256 g then self_merge_disposition else handoff_disposition)
            g.facts.head_sha g.facts.base_sha);
      reason = approval_reason sha256 g;
    }

unfoldable pub evaluate_gate : (Text → Text) → GateInputs → GateOutcome
evaluate_gate sha256 g =
    if text_eq g.claim changes_requested_value
    then changes_requested_arm g
    else if text_eq g.claim approved_value
    then approved_arm sha256 g
    else bounce_or_exhaust g (bytes "no valid verdict claim") (bytes "no valid verdict claim")
