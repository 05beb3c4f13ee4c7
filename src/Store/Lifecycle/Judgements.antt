-- ===== src/Store/Lifecycle/Judgements.antt =====
-- What `ReviewResult` of internal/store/flow.go gets from the engine: one of four transitions out of the
-- code-review gate.
use flowbee.Base.{
  ◌==◌, ◌≡◌, refl, inl, inr, true, [], ◌∷◌, none, some, arith, Bool-cases, Option-cases,
}
use flowbee.Base.Text.{Text, text_eq_iff}
use flowbee.Job.State.{State, ready, review_pending, code_review, needs_human}
use flowbee.Job.Transition.{Trigger, approved, bounce, bounce_exhausted}
use flowbee.Job.Verdict.{Verdict, DomainBFacts, verify}
use flowbee.Job.Gate.{
  GateInputs, evaluate_gate, gate_predicate, outcome, bounce_or_exhaust, changes_requested_arm,
  approved_arm,
}
use flowbee.Job.Gate.Decisions.{evaluate_gate-approved, evaluate_gate-verdict}
use flowbee.Ledger.Event.EventKind.{review_approved, review_bounced}
use flowbee.Ledger.Event.{EventKind}
use flowbee.Engine.{decide}
use flowbee.Engine.Types.{
  EngineState, ReviewClaim, Transition, Decision, move, moving, fenced, rejected,
}
use flowbee.Engine.Review.{
  decide_review_claim, review_arm, approval_arm, awaits_reviewers, gate_inputs, is_code_review,
  verdict_minted_move,
}
use flowbee.Store.Tables.{Tables, Response, committed}
use flowbee.Store.Verdicts.{
  ReviewResultParams, ReviewInputs, review_snapshot, review_claim_of, judged_facts, review_writes,
  review_response, fresh_review,
}
use flowbee.Store.Result.{final_state}

abbrev pub bounced_to : State → EventKind → Transition
bounced_to to kind = record (move code_review to kind) { bounces_delta = 1 }

-- The transitions of the gate, each with what the facts `f` that it judged then satisfy.
pub data IsJudgement (f : DomainBFacts) : Transition → Type 0 where
  accumulated : IsJudgement f (move code_review review_pending review_approved)
  minted :
      (v : Verdict)
      → v.head_sha ≡ f.head_sha
      → v.base_sha ≡ f.base_sha
      → gate_predicate f ≡ true
      → IsJudgement f (verdict_minted_move (some v))
  bounced : IsJudgement f (bounced_to ready review_bounced)
  parked : IsJudgement f (bounced_to needs_human EventKind.bounce_exhausted)

verified_shas :
    (sha256 : Text → Text) (v : Verdict) (head base : Text)
    → verify sha256 v head base ≡ true
    → (v.head_sha ≡ head) × (v.base_sha ≡ base)
unfolding verify
verified_shas sha256 v head base h =
    ground (arith, text_eq_iff v.head_sha head, text_eq_iff v.base_sha base)

abbrev OneJudgement : DomainBFacts → Decision → Type 0
OneJudgement f d = (t : Transition) × IsJudgement f t × (d.transitions ≡ t ∷ [])

approved-verdict :
    (sha256 : Text → Text) (g : GateInputs)
    → (evaluate_gate sha256 g).trigger ≡ approved
    → (v : Verdict) × ((evaluate_gate sha256 g).verdict ≡ some v)
unfolding evaluate_gate changes_requested_arm approved_arm bounce_or_exhaust outcome
approved-verdict sha256 g h = elim (Option-cases (evaluate_gate sha256 g).verdict) [
  | inr found ↦ found
  | inl e ↦ absurd (ground arith)
]

approval_arm-OneJudgement :
    (sha256 : Text → Text) (s : EngineState) (c : ReviewClaim)
    → (evaluate_gate sha256 (gate_inputs s c)).trigger ≡ approved
    → OneJudgement s.github (approval_arm s c (evaluate_gate sha256 (gate_inputs s c)).verdict)
unfolding approval_arm moving move gate_inputs
approval_arm-OneJudgement sha256 s c h = elim (Bool-cases (awaits_reviewers s c)) [
  | inl waits ↦ rw waits (move code_review review_pending review_approved, accumulated, refl)
  | inr enough ↦
      let g = gate_inputs s c in
      let (v, e) = approved-verdict sha256 g h in
      let (_, _, bound, _) = evaluate_gate-verdict sha256 g v e in
      let (head, base) = verified_shas sha256 v s.github.head_sha s.github.base_sha bound in
      let (_, green) = (evaluate_gate-approved sha256 g).0 h in
      rw (enough, e) (verdict_minted_move (some v), minted v head base green, refl)
]

review_arm-OneJudgement :
    (sha256 : Text → Text) (s : EngineState) (c : ReviewClaim) (t : Trigger)
    → (evaluate_gate sha256 (gate_inputs s c)).trigger ≡ t
    → (review_arm s c t (evaluate_gate sha256 (gate_inputs s c)).verdict).reject ≡ none
    → OneJudgement s.github (review_arm s c t (evaluate_gate sha256 (gate_inputs s c)).verdict)
unfolding review_arm moving rejected
review_arm-OneJudgement sha256 s c approved h ok = approval_arm-OneJudgement sha256 s c h
review_arm-OneJudgement sha256 s c bounce h ok = (bounced_to ready review_bounced, bounced, refl)
review_arm-OneJudgement sha256 s c bounce_exhausted h ok =
    (bounced_to needs_human EventKind.bounce_exhausted, parked, refl)
review_arm-OneJudgement sha256 s c _ h ok = absurd (ground arith)

-- A review claim that is not rejected carries the live epoch, is made at the gate and gives one of the
-- transitions.
pub review_claim-IsJudgement :
    (sha256 : Text → Text) (s : EngineState) (c : ReviewClaim)
    → (decide_review_claim sha256 s c).reject ≡ none
    → (c.epoch ≡ s.epoch)
      × (s.job.state ≡ code_review)
      × OneJudgement s.github (decide_review_claim sha256 s c)
unfolding decide_review_claim fenced rejected is_code_review
review_claim-IsJudgement sha256 s c ok = elim (Bool-cases (c.epoch == s.epoch)) [
  | inr stale ↦ absurd (ground arith)
  | inl live ↦ elim (Bool-cases (is_code_review s.job.state)) [
    | inr away ↦ absurd (ground arith)
    | inl here ↦
        let g = evaluate_gate sha256 (gate_inputs s c) in
        let (t, j, e) = review_arm-OneJudgement sha256 s c g.trigger refl (rw (live, here) at ok) in
        (ground arith, ground arith, (t, j, rw (live, here) e))
  ]
]

-- A review result that commits applies one of them.
pub fresh_review-committed :
    (sha256 : Text → Text) (p : ReviewResultParams) (i : ReviewInputs) (db db' : Tables)
    (r : Response)
    → fresh_review sha256 p i db ≡ committed (db', r)
    → (p.epoch ≡ db.store.job.lease_epoch)
      × (db.store.job.state ≡ code_review)
      × (t : Transition) × IsJudgement (judged_facts db.store.job i) t
      × (db' ≡ review_writes p i db (t ∷ []) t.to)
      × (r ≡ review_response (t ∷ []) t.to)
unfolding fresh_review decide final_state review_snapshot review_claim_of
fresh_review-committed sha256 p i db db' r h =
    let s = review_snapshot p i db.store.job in
    let d = decide_review_claim sha256 s (review_claim_of p db.store) in
    elim (Option-cases d.reject) [
      | inr (why, refused) ↦ absurd (ground arith)
      | inl ok ↦
          let (live, here, (t, j, e)) =
            review_claim-IsJudgement sha256 s (review_claim_of p db.store) ok in
          (live, here, t, j, ground arith, ground arith)
    ]
