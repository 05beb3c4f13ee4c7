-- ===== src/Engine/Edges.antt =====
-- The transitions of internal/engine/engine.go against the table of internal/job/transition.go.
pub mod Arms
use flowbee.Base.{
  ℕ, ◌≡◌, ◌≢◌, refl, sym, subst, ◌⊎◌, Bool, true, false, not, List, [], ◌∷◌, Option, none, some,
  arith, Bool-cases, ◌==◌, inl, inr, if◌then◌else◌,
}
use flowbee.Base.Text.{Text, bytes}
use flowbee.Job.State.{
  State, spec_authoring, spec_review, ready, leased, building, review_pending, code_review,
  mergeable, merging, merge_handoff, done, needs_human, failed, needs_design, resolving_conflict,
  has_active_lease, cost_exceeded,
}
use flowbee.Job.Transition.{
  Trigger, work_started, result_received, released, approved, bounce, bounce_exhausted, handoff,
  self_merge, spec_signed_off, spec_superseded, spec_amended, spec_needs_design,
  stall_revoked_retry, stall_revoked_exhausted, agent_exited, awaiting_input_cancel, next,
}
use flowbee.Job.Verdict.{Verdict, SpecSignoff}
use flowbee.Job.Record.{Job}
use flowbee.Liveness.{
  evaluate_kill, evaluate_fast_path, KillDecision, FastPath, no_fast_path, fast_cancel, fast_failed,
}
use flowbee.Engine.{decide}
use flowbee.Engine.Types.{
  EngineState, EngineEvent, heartbeat, liveness_verdict, work_result, release, review_claim,
  merge_dispatch, cost_meter, spec_review_claim, LivenessVerdict, ReviewClaim, SpecReviewClaim,
  Transition, Decision, move, rejected, no_decision, directed, fenced, redispatch_target, continue,
  not_active, Heartbeat,
}
use flowbee.Engine.Lease.{
  decide_heartbeat, decide_cost_meter, decide_liveness, decide_work_result, decide_release,
  heartbeat_arm, kill_arm, work_result_arm, release_target, escalates,
}
use flowbee.Engine.Review.{
  decide_review_claim, decide_spec_review_claim, decide_merge_dispatch, review_arm, spec_review_arm,
  merge_arm, approval_arm, awaits_reviewers, merge_blocked, takes_self_merge, is_code_review,
  is_spec_review, is_mergeable,
}
use flowbee.Engine.Edges.Arms.{
  Edge, Walk, is_staffed, fenced-Walk, if-Walk, staffed-edges, heartbeat_arm-Walk, kill_arm-Walk,
  work_result_arm-Walk, review_arm-Walk, spec_review_arm-Walk, merge_arm-Walk,
}

abbrev pub releases_on_table : State → Bool
releases_on_table leased = true
releases_on_table building = true
releases_on_table code_review = true
releases_on_table _ = false

-- The events whose arms the table covers: in a staffed state all of them, but a release only of a
-- build or of a code review.
abbrev pub is_charted : State → EngineEvent → Bool
is_charted s (heartbeat h) = is_staffed s
is_charted s (liveness_verdict l) = is_staffed s
is_charted s (cost_meter epoch) = is_staffed s
is_charted s (release epoch) = releases_on_table s
is_charted s _ = true

release-edge :
    (j : State) (epoch : ℕ)
    → is_charted j (release epoch) ≡ true
    → next j released ≡ some (release_target j)
unfolding next release_target
release-edge code_review epoch h = refl
release-edge _ epoch h = ground arith

guarded-Walk :
    (j k : State) (b : Bool) (why : Text) (rest : Decision)
    → (b ≡ true → j ≡ k)
    → Walk k rest.transitions
    → Walk j (if not b then rejected why else rest).transitions
unfolding rejected no_decision
guarded-Walk j k true why rest at w = subst (λ i. Walk i rest.transitions) (sym (at refl)) w
guarded-Walk j k false why rest at w = tt

state_tests :
    (j : State)
    → (is_code_review j ≡ true → j ≡ code_review)
      × (is_spec_review j ≡ true → j ≡ spec_review)
      × (is_mergeable j ≡ true → j ≡ mergeable)
unfolding is_code_review is_spec_review is_mergeable
state_tests j = ground arith

review_claim-Walk :
    (sha256 : Text → Text) (s : EngineState) (c : ReviewClaim)
    → Walk s.job.state (decide_review_claim sha256 s c).transitions
unfolding decide_review_claim
review_claim-Walk sha256 s c = fenced-Walk c.epoch s.epoch s.job.state _ (
    guarded-Walk s.job.state code_review (is_code_review s.job.state) _ _
      (state_tests s.job.state).0 (review_arm-Walk s c _ _))

spec_review_claim-Walk :
    (sha256 : Text → Text) (s : EngineState) (c : SpecReviewClaim)
    → Walk s.job.state (decide_spec_review_claim sha256 s c).transitions
unfolding decide_spec_review_claim
spec_review_claim-Walk sha256 s c = fenced-Walk c.epoch s.epoch s.job.state _ (
    guarded-Walk s.job.state spec_review (is_spec_review s.job.state) _ _
      (state_tests s.job.state).1 (spec_review_arm-Walk s.job _ _))

merge_dispatch-Walk :
    (sha256 : Text → Text) (s : EngineState)
    → Walk s.job.state (decide_merge_dispatch sha256 s).transitions
unfolding decide_merge_dispatch
merge_dispatch-Walk sha256 s =
    guarded-Walk s.job.state mergeable (is_mergeable s.job.state) _ _ (state_tests s.job.state).2
      (merge_arm-Walk sha256 s s.job.verdict)

-- A staffed state holds a lease, so the first guard of each arm passes; where the guard fails there
-- is nothing to walk.
active-Walk :
    (j : State) (rest : Decision)
    → Walk j rest.transitions
    → Walk j (if not (has_active_lease j) then rejected not_active else rest).transitions
active-Walk j rest w = guarded-Walk j j (has_active_lease j) not_active rest (λ _. refl) w

liveness-Walk :
    (s : EngineState) (l : LivenessVerdict)
    → is_staffed s.job.state ≡ true
    → Walk s.job.state (decide_liveness s l).transitions
unfolding decide_liveness no_decision
liveness-Walk s l h = active-Walk s.job.state _ (
    if-Walk s.job.state (not (evaluate_kill l.rungs).kill) no_decision
      (kill_arm s.job.state l (evaluate_kill l.rungs)) tt (kill_arm-Walk s.job.state l _ h))

cost_meter-Walk :
    (s : EngineState) (epoch : ℕ)
    → is_staffed s.job.state ≡ true
    → Walk s.job.state (decide_cost_meter s epoch).transitions
unfolding decide_cost_meter directed
cost_meter-Walk s epoch h = fenced-Walk epoch s.epoch s.job.state _ (
    active-Walk s.job.state _ (
      if-Walk s.job.state (not (cost_exceeded s.job.cost_micro_usd s.job.cost_ceiling_micro_usd))
        (directed continue) _ tt
        (refl, (stall_revoked_exhausted, (staffed-edges s.job.state h).3), tt)))

-- The engine refines the table. Whatever it decides, in a staffed state for any event but a release
-- of a spec lease, and in every state for results, claims and merge dispatch, is a walk along edges
-- of the table that starts at the job's state.
pub decide-Walk :
    (sha256 : Text → Text) (s : EngineState) (ev : EngineEvent)
    → is_charted s.job.state ev ≡ true
    → Walk s.job.state (decide sha256 s ev).transitions
unfolding decide decide_heartbeat decide_work_result decide_release
decide-Walk sha256 s (heartbeat h) c = fenced-Walk h.epoch s.epoch s.job.state _ (
    active-Walk s.job.state _
      (heartbeat_arm-Walk s (evaluate_fast_path h.health h.awaiting_input h.agent_exited) c))
decide-Walk sha256 s (liveness_verdict l) c = liveness-Walk s l c
decide-Walk sha256 s (work_result epoch) c =
    fenced-Walk epoch s.epoch s.job.state _ (work_result_arm-Walk s.job.state)
decide-Walk sha256 s (release epoch) c =
    fenced-Walk epoch s.epoch s.job.state _
      (active-Walk s.job.state _ (refl, (released, release-edge s.job.state epoch c), tt))
decide-Walk sha256 s (review_claim rc) c = review_claim-Walk sha256 s rc
decide-Walk sha256 s merge_dispatch c = merge_dispatch-Walk sha256 s
decide-Walk sha256 s (cost_meter epoch) c = cost_meter-Walk s epoch c
decide-Walk sha256 s (spec_review_claim rc) c = spec_review_claim-Walk sha256 s rc
