-- ===== src/Engine/Minting.antt =====
-- What internal/engine/engine.go requires before it mints a verdict or merges without a human.
use flowbee.Base.{
  ℕ, ◌+◌, ◌≡◌, refl, ◌∙◌, ◌⊎◌, inl, inr, Bool, true, false, List, [], ◌∷◌, Option, none, some,
  arith, Bool-cases,
}
use flowbee.Base.Text.{Text, text_eq_iff}
use flowbee.Job.State.{State, code_review, mergeable, merging}
use flowbee.Job.Transition.{Trigger, approved}
use flowbee.Base.Int.{pos, ◌≤ℤ◌}
use flowbee.Job.Verdict.{
  Verdict, verify, approved_value, self_merge_disposition, required_reviewers_or_default,
}
use flowbee.Job.Gate.{
  evaluate_gate, gate_predicate, merge_ready, content_eligible, self_merge_eligible,
}
use flowbee.Job.Gate.Decisions.{evaluate_gate-approved, evaluate_gate-verdict}
use flowbee.Engine.{decide}
use flowbee.Engine.Types.{
  EngineState, EngineEvent, review_claim, merge_dispatch, ReviewClaim, Transition, Decision,
  rejected, fenced, redispatch_target,
}
use flowbee.Engine.Lease.{
  decide_heartbeat, decide_cost_meter, decide_liveness, decide_work_result, decide_release,
  heartbeat_arm, kill_arm, work_result_arm, release_target,
}
use flowbee.Engine.Review.{
  decide_review_claim, decide_spec_review_claim, decide_merge_dispatch, review_arm, approval_arm,
  spec_review_arm, merge_arm, awaits_reviewers, merge_blocked, takes_self_merge, gate_inputs,
  is_code_review, is_mergeable, verdict_minted_move,
}

-- A decision that mints no verdict.
abbrev MintsNothing : Decision → Type 0
MintsNothing d = d.verdict_mint ≡ none

fenced-mint :
    (claimed live : ℕ) (rest : Decision)
    → MintsNothing rest
    → MintsNothing (fenced claimed live rest)
unfolding fenced rejected
fenced-mint claimed live rest m = ground arith

-- Only a review claim mints.
abbrev is_review : EngineEvent → Bool
is_review (review_claim c) = true
is_review _ = false

lease_arms-mint :
    (sha256 : Text → Text) (s : EngineState) (ev : EngineEvent)
    → is_review ev ≡ false
    → MintsNothing (decide sha256 s ev)
unfolding decide decide_heartbeat decide_cost_meter decide_liveness decide_work_result
    decide_release decide_spec_review_claim decide_merge_dispatch heartbeat_arm kill_arm
    work_result_arm spec_review_arm merge_arm fenced rejected
lease_arms-mint sha256 s (review_claim c) n = absurd (ground arith)
lease_arms-mint sha256 s _ n = ground arith

review_arm-mint :
    (s : EngineState) (c : ReviewClaim) (t : Trigger) (v : Option Verdict) (w : Verdict)
    → (review_arm s c t v).verdict_mint ≡ some w
    → (t ≡ approved)
      × (v ≡ some w)
      × (required_reviewers_or_default s.policy ≤ℤ pos (c.prior_approvals + 1))
      × ((review_arm s c t v).transitions ≡ verdict_minted_move (some w) ∷ [])
unfolding review_arm approval_arm awaits_reviewers
review_arm-mint s c approved v w h = ground arith
review_arm-mint s c _ v w h = ground arith

-- What a minted verdict rests on.
pub record MintedFrom (sha256 : Text → Text) (s : EngineState) (c : ReviewClaim) (v : Verdict)
    : Type 0 where
  pub live : c.epoch ≡ s.epoch
  pub at_gate : s.job.state ≡ code_review
  pub claimed : c.value ≡ approved_value
  pub green : gate_predicate s.github ≡ true
  pub bound : verify sha256 v s.github.head_sha s.github.base_sha ≡ true
  pub reviewed : required_reviewers_or_default s.policy ≤ℤ pos (c.prior_approvals + 1)

review_claim-mint :
    (sha256 : Text → Text) (s : EngineState) (c : ReviewClaim) (v : Verdict)
    → (decide_review_claim sha256 s c).verdict_mint ≡ some v
    → (c.epoch ≡ s.epoch)
      × (s.job.state ≡ code_review)
      × ((review_arm s c
            (evaluate_gate sha256 (gate_inputs s c)).trigger
            (evaluate_gate sha256 (gate_inputs s c)).verdict).verdict_mint
          ≡ some v)
      × ((decide_review_claim sha256 s c).transitions
          ≡ (review_arm s c
              (evaluate_gate sha256 (gate_inputs s c)).trigger
              (evaluate_gate sha256 (gate_inputs s c)).verdict).transitions)
unfolding decide_review_claim fenced rejected is_code_review
review_claim-mint sha256 s c v h = ground arith

-- Whenever the engine mints a verdict, the event is a review claim with the live epoch on a job in
-- code_review, the claim says `approved`, the reconciled facts pass the gate predicate, enough
-- distinct reviewers have approved, and the verdict verifies at the reconciled SHA pair. The only
-- transition then moves the job to mergeable and carries that verdict.
pub decide-mints :
    (sha256 : Text → Text) (s : EngineState) (ev : EngineEvent) (v : Verdict)
    → (decide sha256 s ev).verdict_mint ≡ some v
    → (c : ReviewClaim) × (ev ≡ review_claim c)
      × MintedFrom sha256 s c v
      × ((decide sha256 s ev).transitions ≡ verdict_minted_move (some v) ∷ [])
unfolding decide gate_inputs
decide-mints sha256 s (review_claim c) v h =
    let g = gate_inputs s c in
    let (live, at_gate, minted, moved) = review_claim-mint sha256 s c v h in
    let (t, out, enough, moves) =
      review_arm-mint s c (evaluate_gate sha256 g).trigger (evaluate_gate sha256 g).verdict v
        minted in
    let (claim, green) = (evaluate_gate-approved sha256 g).0 t in
    (
      c,
      refl,
      record {
        live = live;
        at_gate = at_gate;
        claimed = claim;
        green = green;
        bound = (evaluate_gate-verdict sha256 g v out).2;
        reviewed = enough;
      },
      moved ∙ moves,
    )
decide-mints sha256 s ev v h = absurd (ground (arith, lease_arms-mint sha256 s ev refl))

-- A transition into `merging`.
abbrev pub Merges : List Transition → Type 0
Merges [] = ⊥
Merges (t ∷ ts) = (t.to ≡ merging) ⊎ Merges ts

-- What an unattended merge rests on.
pub record UnattendedMerge (sha256 : Text → Text) (s : EngineState) (v : Verdict) : Type 0 where
  pub dispatchable : s.job.state ≡ mergeable
  pub carries : s.job.verdict ≡ some v
  pub asked : v.disposition ≡ self_merge_disposition
  pub bound : verify sha256 v s.github.head_sha s.github.base_sha ≡ true
  pub allowed : s.policy.allow_self_merge ≡ true
  pub clear : content_eligible s.content ≡ true
  pub ready_facts : merge_ready s.github ≡ true

unattended :
    (sha256 : Text → Text) (s : EngineState) (v : Verdict)
    → s.job.state ≡ mergeable
    → s.job.verdict ≡ some v
    → merge_blocked sha256 s v ≡ false
    → takes_self_merge sha256 s v ≡ true
    → UnattendedMerge sha256 s v
unfolding merge_blocked takes_self_merge self_merge_eligible
unattended sha256 s v at e b f = ground (arith, text_eq_iff v.disposition self_merge_disposition)

merge_arm-Merges :
    (sha256 : Text → Text) (s : EngineState) (o : Option Verdict)
    → s.job.state ≡ mergeable
    → s.job.verdict ≡ o
    → Merges (merge_arm sha256 s o).transitions
    → (v : Verdict) × UnattendedMerge sha256 s v
unfolding merge_arm
merge_arm-Merges sha256 s none at e m = absurd m
merge_arm-Merges sha256 s (some v) at e m = elim (Bool-cases (merge_blocked sha256 s v)) [
  | inl b ↦ absurd (rw b at m)
  | inr b ↦ elim (Bool-cases (takes_self_merge sha256 s v)) [
    | inr f ↦ absurd (ground arith)
    | inl f ↦ (v, unattended sha256 s v at e b f)
  ]
]

mergeable_test : (j : State) → is_mergeable j ≡ true → j ≡ mergeable
unfolding is_mergeable
mergeable_test j h = ground arith

merge_dispatch-Merges :
    (sha256 : Text → Text) (s : EngineState)
    → Merges (decide_merge_dispatch sha256 s).transitions
    → (v : Verdict) × UnattendedMerge sha256 s v
unfolding decide_merge_dispatch rejected
merge_dispatch-Merges sha256 s m = elim (Bool-cases (is_mergeable s.job.state)) [
  | inl e ↦ merge_arm-Merges sha256 s s.job.verdict (mergeable_test s.job.state e) refl (rw e at m)
  | inr e ↦ absurd (rw e at m)
]

is_dispatch : EngineEvent → Bool
is_dispatch merge_dispatch = true
is_dispatch _ = false

other_arms-Merges :
    (sha256 : Text → Text) (s : EngineState) (ev : EngineEvent)
    → is_dispatch ev ≡ false
    → ¬ Merges (decide sha256 s ev).transitions
unfolding is_dispatch decide decide_heartbeat decide_cost_meter decide_liveness decide_work_result
    decide_release decide_spec_review_claim decide_review_claim heartbeat_arm kill_arm
    work_result_arm spec_review_arm review_arm approval_arm fenced rejected redispatch_target
    release_target
other_arms-Merges sha256 s merge_dispatch n m = absurd (ground arith)
other_arms-Merges sha256 s _ n m = ground arith

-- The engine moves a job into `merging` only on a merge dispatch, for a mergeable job whose stored
-- verdict carries self_merge and still verifies at GitHub's current SHA pair, with the policy on, the
-- content gate clear and the facts merge-ready at that moment.
pub decide-Merges :
    (sha256 : Text → Text) (s : EngineState) (ev : EngineEvent)
    → Merges (decide sha256 s ev).transitions
    → (ev ≡ merge_dispatch) × ((v : Verdict) × UnattendedMerge sha256 s v)
unfolding decide is_dispatch
decide-Merges sha256 s merge_dispatch m = (refl, merge_dispatch-Merges sha256 s m)
decide-Merges sha256 s ev m = absurd (other_arms-Merges sha256 s ev refl m)
