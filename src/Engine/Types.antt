-- ===== src/Engine/Types.antt =====
-- internal/engine/engine.go: the snapshot, the closed set of events, and decisions as data.
use flowbee.Base.{ℕ, Bool, false, ◌==◌, if◌then◌else◌, List, [], ◌∷◌, Option, none, some}
use flowbee.Base.Text.{Text, bytes}
use flowbee.Job.State.{
  State, spec_authoring, spec_review, ready, review_pending, code_review, resolving_conflict,
}
use flowbee.Job.Verdict.{Verdict, SpecSignoff, Policy, DomainBFacts}
use flowbee.Job.Record.{Job}
use flowbee.Content.{Result}
use flowbee.Liveness.{AgentHealth, RungSet}
use flowbee.Ledger.Event.{EventKind}

pub record SpecState : Type 0 where
  pub current_hash : Text
  pub version : ℕ
  pub author_lens : Text
  pub reviewer_lens : Text

pub record EngineState : Type 0 where
  pub job : Job
  pub now : ℕ
  pub epoch : ℕ
  pub github : DomainBFacts
  pub policy : Policy
  pub spec : SpecState
  pub content : Option Result

pub record Heartbeat : Type 0 where
  pub epoch : ℕ
  pub health : AgentHealth
  pub awaiting_input : Bool
  pub agent_exited : Bool

pub record LivenessVerdict : Type 0 where
  pub rungs : RungSet
  pub governor_ceiling_reached : Bool
  pub attempts_exhausted : Bool

pub record ReviewClaim : Type 0 where
  pub epoch : ℕ
  pub value : Text
  pub disposition : Text
  pub reviewer_prior_rejections : ℕ
  pub prior_approvals : ℕ

pub record SpecReviewClaim : Type 0 where
  pub epoch : ℕ
  pub claim : Text
  pub claim_binds_to : Text
  pub meets_style : Bool
  pub meets_requirements : Bool
  pub amended_hash : Text
  pub amended_version : ℕ
  pub reviewer_prior_rejections : ℕ

-- The events that implement `isEngineEvent`; the number is the caller's epoch.
pub data EngineEvent : Type 0 where
  heartbeat : Heartbeat → EngineEvent
  liveness_verdict : LivenessVerdict → EngineEvent
  work_result : ℕ → EngineEvent
  release : ℕ → EngineEvent
  review_claim : ReviewClaim → EngineEvent
  merge_dispatch : EngineEvent
  cost_meter : ℕ → EngineEvent
  spec_review_claim : SpecReviewClaim → EngineEvent

pub data Directive : Type 0 where
  continue cancel : Directive

pub record Transition : Type 0 where
  pub from : State
  pub to : State
  pub kind : EventKind
  pub bounces_delta : ℕ
  pub attempts_delta : ℕ
  pub verdict : Option Verdict
  pub spec_signoff : Option SpecSignoff
  pub stall_revocations_delta : ℕ
  pub bump_epoch : Bool
  pub revoke_reason : Text

-- A transition with every delta at its zero value.
unfoldable pub move : State → State → EventKind → Transition
move from to kind = record {
  from = from;
  to = to;
  kind = kind;
  bounces_delta = 0;
  attempts_delta = 0;
  verdict = none;
  spec_signoff = none;
  stall_revocations_delta = 0;
  bump_epoch = false;
  revoke_reason = [];
}

pub record Decision : Type 0 where
  pub transitions : List Transition
  pub verdict_mint : Option Verdict
  pub spec_mint : Option SpecSignoff
  pub directive : Option Directive
  pub reject : Option Text

unfoldable pub no_decision : Decision
no_decision = record {
  transitions = [];
  verdict_mint = none;
  spec_mint = none;
  directive = none;
  reject = none;
}

unfoldable pub rejected : Text → Decision
unfolding no_decision
rejected reason = record no_decision { reject = some reason }

unfoldable pub directed : Directive → Decision
unfolding no_decision
directed d = record no_decision { directive = some d }

unfoldable pub moving : Transition → Decision
unfolding no_decision
moving t = record no_decision { transitions = t ∷ [] }

unfoldable pub redispatch_target : State → State
redispatch_target code_review = review_pending
redispatch_target spec_authoring = spec_authoring
redispatch_target spec_review = spec_authoring
redispatch_target resolving_conflict = resolving_conflict
redispatch_target _ = ready

-- `if r := staleEpoch(claimed, live); r != nil { return Decision{Reject: r} }`, then the rest.
unfoldable pub fenced : ℕ → ℕ → Decision → Decision
unfolding rejected
fenced claimed live rest = if claimed == live then rest else rejected (bytes "stale lease epoch")

abbrev pub not_active : Text
not_active = bytes "job not in an active lease state"
