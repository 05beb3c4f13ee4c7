-- ===== src/Engine/Edges/Arms.antt =====
-- The arms of internal/engine/engine.go, transition by transition, against the table of internal/job/transition.go.
use flowbee.Base.{
  ℕ, ◌≡◌, refl, Bool, true, false, List, [], ◌∷◌, Option, none, some, arith, Bool-cases, ◌==◌, inl,
  inr, if◌then◌else◌,
}
use flowbee.Base.Text.{Text}
use flowbee.Job.State.{
  State, spec_authoring, spec_review, leased, building, code_review, mergeable, needs_human, failed,
}
use flowbee.Job.Transition.{
  Trigger, work_started, result_received, released, approved, bounce, bounce_exhausted, handoff,
  self_merge, spec_signed_off, spec_superseded, spec_amended, spec_needs_design,
  stall_revoked_retry, stall_revoked_exhausted, agent_exited, awaiting_input_cancel, next,
}
use flowbee.Job.Verdict.{Verdict, SpecSignoff}
use flowbee.Job.Record.{Job}
use flowbee.Liveness.{KillDecision, FastPath, no_fast_path, fast_cancel, fast_failed}
use flowbee.Engine.Types.{
  EngineState, LivenessVerdict, ReviewClaim, Transition, Decision, rejected, fenced,
  redispatch_target,
}
use flowbee.Engine.Lease.{heartbeat_arm, kill_arm, work_result_arm, escalates}
use flowbee.Engine.Review.{
  review_arm, spec_review_arm, merge_arm, approval_arm, awaits_reviewers, merge_blocked,
  takes_self_merge,
}

-- Some trigger of the table takes `s` to `t`.
abbrev pub Edge : State → State → Type 0
Edge s t = (trigger : Trigger) × (next s trigger ≡ some t)

-- The transitions leave `s` one after the other, each along an edge of the table.
abbrev pub Walk : State → List Transition → Type 0
Walk s [] = Unit
Walk s (t ∷ ts) = (t.from ≡ s) × Edge t.from t.to × Walk t.to ts

-- The states whose kills and cancellations the table knows: a worker holds the lease of a build, a
-- review or a spec.
abbrev pub is_staffed : State → Bool
is_staffed leased = true
is_staffed building = true
is_staffed code_review = true
is_staffed spec_authoring = true
is_staffed spec_review = true
is_staffed _ = false

pub fenced-Walk :
    (claimed live : ℕ) (s : State) (rest : Decision)
    → Walk s rest.transitions
    → Walk s (fenced claimed live rest).transitions
unfolding fenced rejected
fenced-Walk claimed live s rest w = elim (Bool-cases (claimed == live)) [
  | inl same ↦ rw same w
  | inr stale ↦ rw stale tt
]

pub if-Walk :
    (s : State) (b : Bool) (x y : Decision)
    → Walk s x.transitions
    → Walk s y.transitions
    → Walk s (if b then x else y).transitions
if-Walk s true x y p q = p
if-Walk s false x y p q = q

-- The table's way out of a staffed state, for each way in which a lease is pulled.
pub staffed-edges :
    (j : State)
    → is_staffed j ≡ true
    → (next j agent_exited ≡ some failed)
      × (next j awaiting_input_cancel ≡ some (redispatch_target j))
      × (next j stall_revoked_retry ≡ some (redispatch_target j))
      × (next j stall_revoked_exhausted ≡ some needs_human)
unfolding next redispatch_target
staffed-edges j h = ground arith

pub heartbeat_arm-Walk :
    (s : EngineState) (path : FastPath)
    → is_staffed s.job.state ≡ true
    → Walk s.job.state (heartbeat_arm s path).transitions
unfolding heartbeat_arm
heartbeat_arm-Walk s fast_failed h = (refl, (agent_exited, (staffed-edges s.job.state h).0), tt)
heartbeat_arm-Walk s fast_cancel h =
    (refl, (awaiting_input_cancel, (staffed-edges s.job.state h).1), tt)
heartbeat_arm-Walk s no_fast_path h = tt

pub kill_arm-Walk :
    (j : State) (l : LivenessVerdict) (kd : KillDecision)
    → is_staffed j ≡ true
    → Walk j (kill_arm j l kd).transitions
unfolding kill_arm
kill_arm-Walk j l kd h = elim (Bool-cases (escalates kd l)) [
  | inl e ↦ rw e (refl, (stall_revoked_exhausted, (staffed-edges j h).3), tt)
  | inr e ↦ rw e (refl, (stall_revoked_retry, (staffed-edges j h).2), tt)
]

pub work_result_arm-Walk : (j : State) → Walk j (work_result_arm j).transitions
unfolding work_result_arm next
work_result_arm-Walk leased = (refl, (work_started, refl), (refl, (result_received, refl), tt))
work_result_arm-Walk building = (refl, (result_received, refl), tt)
work_result_arm-Walk _ = tt

approval_arm-Walk :
    (s : EngineState) (c : ReviewClaim) (v : Option Verdict)
    → Walk code_review (approval_arm s c v).transitions
unfolding approval_arm next
approval_arm-Walk s c v = elim (Bool-cases (awaits_reviewers s c)) [
  | inl e ↦ rw e (refl, (released, refl), tt)
  | inr e ↦ rw e (refl, (approved, refl), tt)
]

pub review_arm-Walk :
    (s : EngineState) (c : ReviewClaim) (t : Trigger) (v : Option Verdict)
    → Walk code_review (review_arm s c t v).transitions
unfolding review_arm next
review_arm-Walk s c approved v = approval_arm-Walk s c v
review_arm-Walk s c bounce v = (refl, (bounce, refl), tt)
review_arm-Walk s c bounce_exhausted v = (refl, (bounce_exhausted, refl), tt)
review_arm-Walk s c _ v = tt

pub spec_review_arm-Walk :
    (j : Job) (t : Trigger) (so : Option SpecSignoff)
    → Walk spec_review (spec_review_arm j t so).transitions
unfolding spec_review_arm next
spec_review_arm-Walk j spec_signed_off so = (refl, (spec_signed_off, refl), tt)
spec_review_arm-Walk j spec_amended so = (refl, (spec_amended, refl), tt)
spec_review_arm-Walk j spec_needs_design so = (refl, (spec_needs_design, refl), tt)
spec_review_arm-Walk j spec_superseded so = (refl, (spec_superseded, refl), tt)
spec_review_arm-Walk j bounce so = elim (Bool-cases j.is_epic) [
  | inl e ↦ rw e (refl, (bounce_exhausted, refl), tt)
  | inr e ↦ rw e (refl, (bounce, refl), tt)
]
spec_review_arm-Walk j bounce_exhausted so = (refl, (bounce_exhausted, refl), tt)
spec_review_arm-Walk j _ so = tt

pub merge_arm-Walk :
    (sha256 : Text → Text) (s : EngineState) (v : Option Verdict)
    → Walk mergeable (merge_arm sha256 s v).transitions
unfolding merge_arm next
merge_arm-Walk sha256 s none = tt
merge_arm-Walk sha256 s (some v) = elim (Bool-cases (merge_blocked sha256 s v)) [
  | inl e ↦ rw e tt
  | inr e ↦ elim (Bool-cases (takes_self_merge sha256 s v)) [
    | inl f ↦ rw (e, f) (refl, (self_merge, refl), tt)
    | inr f ↦ rw (e, f) (refl, (handoff, refl), tt)
  ]
]
