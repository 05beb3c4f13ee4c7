-- ===== src/Job/Gate/Decisions.antt =====
-- What the code-review gate of internal/job/verdict.go decides, on every branch.
use flowbee.Base.{
  ◌+◌, ◌≤◌, ◌≡◌, ◌≢◌, refl, ◌∙◌, ◌⊎◌, ◌↔◌, true, false, Option, none, some, arith, if◌then◌else◌,
  ◌++◌,
}
use flowbee.Base.Text.{Text, bytes, text_eq, text_eq_iff}
use flowbee.Content.{Result, eligible}
use flowbee.Job.Transition.{approved, bounce_exhausted}
use flowbee.Job.Verdict.{
  Verdict, Policy, mint_verdict, verify, approved_value, changes_requested_value,
  self_merge_disposition, handoff_disposition,
}
use flowbee.Job.Verdict.Binding.{verify-mint_verdict}
use flowbee.Base.Strings.{equal_fold}
use flowbee.Job.Gate.{
  GateInputs, gate_predicate, merge_ready, content_eligible, self_merge_eligible, deny_reason,
  content_reason, approval_reason, reason_moved, outcome, bounce_or_exhaust, changes_requested_arm,
  promotes, approved_arm, evaluate_gate, max_reviewer_rejections,
}

approved_ne_changes : text_eq approved_value changes_requested_value ≡ false
unfolding text_eq bytes
approved_ne_changes = refl

module _ (sha256 : Text → Text) where
  -- The gate approves exactly when the claim says `approved` and the reconciled facts pass the gate
  -- predicate; no claim over red facts, and no other claim over green ones, approves.
  pub evaluate_gate-approved :
      (g : GateInputs)
      → ((evaluate_gate sha256 g).trigger ≡ approved)
        ↔ ((g.claim ≡ approved_value) × (gate_predicate g.facts ≡ true))
  unfolding evaluate_gate changes_requested_arm approved_arm bounce_or_exhaust outcome
  evaluate_gate-approved g = ground (arith, text_eq_iff g.claim approved_value, approved_ne_changes)

  -- The gate parks the job for a human exactly when it does not approve and either the next bounce
  -- reaches the job's maximum, or the claim is changes_requested and it is the sixth by this
  -- reviewer.
  pub evaluate_gate-exhausted :
      (g : GateInputs)
      → ((evaluate_gate sha256 g).trigger ≡ bounce_exhausted) ↔ (
          ((evaluate_gate sha256 g).trigger ≢ approved)
          × ((g.max_bounce ≤ g.bounces + 1)
              ⊎ ((g.claim ≡ changes_requested_value)
                  × (max_reviewer_rejections ≤ g.reviewer_rejections + 1))))
  unfolding evaluate_gate changes_requested_arm approved_arm bounce_or_exhaust outcome
  evaluate_gate-exhausted g = ground (
    arith,
    text_eq_iff g.claim approved_value,
    text_eq_iff g.claim changes_requested_value,
    approved_ne_changes,
  )

  -- Self-merge is granted exactly when it was requested, the policy allows it, the content gate ran
  -- and cleared the diff, and GitHub's facts are merge-ready. The SHA binding of the verdict that is
  -- minted on the spot adds nothing.
  pub promotes_iff :
      (g : GateInputs)
      → (promotes sha256 g ≡ true) ↔ (
          (g.disp ≡ self_merge_disposition)
          × (g.policy.allow_self_merge ≡ true)
          × (content_eligible g.content ≡ true)
          × (merge_ready g.facts ≡ true))
  unfolding promotes self_merge_eligible
  promotes_iff g = ground (
    arith,
    text_eq_iff g.disp self_merge_disposition,
    (verify-mint_verdict sha256 approved_value self_merge_disposition g.facts.head_sha
          g.facts.base_sha g.facts.head_sha g.facts.base_sha).1
        (refl, refl),
  )

  verify-minted :
      (g : GateInputs) (disp : Text)
      → verify sha256
          (mint_verdict sha256 approved_value disp g.facts.head_sha g.facts.base_sha)
          g.facts.head_sha
          g.facts.base_sha
        ≡ true
  verify-minted g disp = (verify-mint_verdict sha256 _ _ _ _ _ _).1 (refl, refl)

  mint_value :
      (disp head base : Text)
      → ((mint_verdict sha256 approved_value disp head base).value ≡ approved_value)
        × ((mint_verdict sha256 approved_value disp head base).disposition ≡ disp)
  unfolding mint_verdict
  mint_value disp head base = (refl, refl)

  -- A verdict leaves the gate only with an approval. It then carries the value `approved`, verifies
  -- at the reconciled SHA pair, and its disposition is self_merge when the promotion holds and
  -- handoff otherwise.
  pub evaluate_gate-verdict :
      (g : GateInputs) (v : Verdict)
      → (evaluate_gate sha256 g).verdict ≡ some v
      → ((evaluate_gate sha256 g).trigger ≡ approved)
        × (v.value ≡ approved_value)
        × (verify sha256 v g.facts.head_sha g.facts.base_sha ≡ true)
        × (v.disposition
            ≡ (if promotes sha256 g then self_merge_disposition else handoff_disposition))
  unfolding evaluate_gate changes_requested_arm approved_arm bounce_or_exhaust outcome
  evaluate_gate-verdict g v h = ground (
    arith,
    verify-minted g (if promotes sha256 g then self_merge_disposition else handoff_disposition),
    mint_value (if promotes sha256 g then self_merge_disposition else handoff_disposition)
        g.facts.head_sha g.facts.base_sha,
  )

  unknown_blocks :
      (g : GateInputs)
      → gate_predicate g.facts ≡ true
      → g.policy.allow_self_merge ≡ true
      → content_eligible g.content ≡ true
      → g.disp ≡ self_merge_disposition
      → promotes sha256 g ≡ false
      → equal_fold g.facts.mergeable_state (bytes "unknown") ≡ true
  unfolding merge_ready
  unknown_blocks g green p c d n = ground (arith, (promotes_iff g).1)

  gate_reason :
      (g : GateInputs)
      → g.claim ≡ approved_value
      → gate_predicate g.facts ≡ true
      → (evaluate_gate sha256 g).reason ≡ approval_reason sha256 g
  unfolding evaluate_gate approved_arm
  gate_reason g claim green =
      ground (arith, text_eq_iff g.claim approved_value, approved_ne_changes)

  clear_reason : (r : Result) → eligible r ≡ true → content_reason r ≡ reason_moved
  unfolding eligible content_reason
  clear_reason r c = ground arith

  deny_reason_moved :
      (chk : Option Result) (p : Policy)
      → p.allow_self_merge ≡ true
      → content_eligible chk ≡ true
      → deny_reason chk p ≡ reason_moved
  unfolding deny_reason content_eligible
  deny_reason_moved none p a c = ground arith
  deny_reason_moved (some r) p a c = ground (arith, clear_reason r c)

  approval_reason_moved :
      (g : GateInputs)
      → g.policy.allow_self_merge ≡ true
      → content_eligible g.content ≡ true
      → g.disp ≡ self_merge_disposition
      → promotes sha256 g ≡ false
      → approval_reason sha256 g ≡ bytes "self_merge requested but " ++ reason_moved
  unfolding approval_reason
  approval_reason_moved g p c d n =
      ground
        (arith, text_eq_iff g.disp self_merge_disposition, deny_reason_moved g.content g.policy p c)

  -- The reason that blames a SHA move is given for an approval whose SHAs did not move: with the
  -- policy on, the diff clear and self_merge requested, an approval is denied self_merge exactly
  -- because GitHub reports its mergeability as unknown.
  pub deny_reason_unknown :
      (g : GateInputs)
      → (evaluate_gate sha256 g).trigger ≡ approved
      → g.policy.allow_self_merge ≡ true
      → content_eligible g.content ≡ true
      → g.disp ≡ self_merge_disposition
      → promotes sha256 g ≡ false
      → (equal_fold g.facts.mergeable_state (bytes "unknown") ≡ true)
        × ((evaluate_gate sha256 g).reason ≡ bytes "self_merge requested but " ++ reason_moved)
  deny_reason_unknown g a p c d n =
      let (claim, green) = (evaluate_gate-approved g).0 a in
      (unknown_blocks g green p c d n, gate_reason g claim green ∙ approval_reason_moved g p c d n)

  -- For a job whose maximum of bounces is at most six, counting each reviewer's rejections among the
  -- bounces, the per-reviewer cap never changes the trigger that the gate sends nor the verdict that it
  -- mints: where the cap is reached the total one is too. The reason that the gate gives may differ.
  pub reviewer_cap_idle :
      (g : GateInputs)
      → g.reviewer_rejections ≤ g.bounces
      → g.max_bounce ≤ max_reviewer_rejections
      → let uncapped = evaluate_gate sha256 (record g { reviewer_rejections = 0 }) in
        ((evaluate_gate sha256 g).trigger ≡ uncapped.trigger)
        × ((evaluate_gate sha256 g).verdict ≡ uncapped.verdict)
  unfolding evaluate_gate changes_requested_arm approved_arm bounce_or_exhaust outcome promotes
  reviewer_cap_idle g h k = (ground arith, ground arith)
