-- ===== src/Store/Lifecycle/Mints.antt =====
-- What stands behind a verdict that `ReviewResult` of internal/store/flow.go mints.
use flowbee.Base.{
  ℕ, ap, ◌==◌, Option-cases, ◌≡◌, refl, sym, ◌∙◌, subst, true, false, List, [], ◌∷◌, ◌++◌, Option,
  none, some, inl, inr, arith, Bool-cases,
}
use flowbee.Base.Int.{pos, ◌≤ℤ◌}
use flowbee.Base.Text.{Text}
use flowbee.Job.State.{State}
use flowbee.Job.Transition.{Trigger, approved}
use flowbee.Job.Verdict.{Verdict, verify, approved_value, required_reviewers_or_default}
use flowbee.Job.Gate.{evaluate_gate, gate_predicate}
use flowbee.Engine.{decide}
use flowbee.Engine.Types.{
  EngineState, EngineEvent, ReviewClaim, Transition, move, moving, fenced, rejected,
}
use flowbee.Engine.Review.{
  decide_review_claim, review_arm, approval_arm, awaits_reviewers, gate_inputs, is_code_review,
  verdict_minted_move,
}
use flowbee.Engine.Minting.{MintedFrom, decide-mints}
use flowbee.Store.Tables.{Tables, Response, committed}
use flowbee.Store.Panel.{approved_in_round, distinct_actors}
use flowbee.Store.Panel.Quorum.{approvals, prior_approvals-new}
use flowbee.Store.Result.{final_state}
use flowbee.Store.Verdicts.{
  ReviewResultParams, ReviewInputs, judged_facts, review_snapshot, review_claim_of, review_response,
  minted_of, verdict_claim_event, fresh_review,
}
use flowbee.Engine.Types.{Decision}
use flowbee.Job.Verdict.{DomainBFacts}
use flowbee.Store.Lifecycle.Judgements.{
  IsJudgement, review_claim-IsJudgement, accumulated, minted, bounced, parked,
}
use flowbee.Store.Row.{JobStore}
use flowbee.Store.Verdicts.{review_writes, reviewed_row}

-- The verdict that the decision's transitions carry is the one that it mints.
review_arm-carries :
    (s : EngineState) (c : ReviewClaim) (t : Trigger) (v : Option Verdict)
    → minted_of none (review_arm s c t v).transitions ≡ (review_arm s c t v).verdict_mint
unfolding review_arm approval_arm minted_of moving move rejected verdict_minted_move
review_arm-carries s c approved none = elim (Bool-cases (awaits_reviewers s c)) [
  | inl h ↦ rw h refl
  | inr h ↦ rw h refl
]
review_arm-carries s c approved (some v) = elim (Bool-cases (awaits_reviewers s c)) [
  | inl h ↦ rw h refl
  | inr h ↦ rw h refl
]
review_arm-carries s c _ v = refl

decision-carries :
    (sha256 : Text → Text) (s : EngineState) (c : ReviewClaim)
    → minted_of none (decide_review_claim sha256 s c).transitions
      ≡ (decide_review_claim sha256 s c).verdict_mint
unfolding decide_review_claim fenced rejected minted_of
decision-carries sha256 s c =
    let g = evaluate_gate sha256 (gate_inputs s c) in
    elim (Bool-cases (c.epoch == s.epoch)) [
      | inr stale ↦ rw stale refl
      | inl live ↦ elim (Bool-cases (is_code_review s.job.state)) [
        | inr away ↦ rw (live, away) refl
        | inl here ↦ rw (live, here) (review_arm-carries s c g.trigger g.verdict)
      ]
    ]

response-minted :
    (ts : List Transition) (final : State)
    → (review_response ts final).minted ≡ true
    → (v : Verdict) × (minted_of none ts ≡ some v)
unfolding review_response
response-minted ts final h = elim (Option-cases (minted_of none ts)) [
  | inl e ↦ absurd (ground arith)
  | inr found ↦ found
]

response-value :
    (ts : List Transition) (final : State) (v : Verdict)
    → minted_of none ts ≡ some v
    → (review_response ts final).verdict ≡ v.value
unfolding review_response
response-value ts final v e = rw (review_response, e) refl

-- The decision on a review claim.
abbrev decision : (Text → Text) → ReviewResultParams → ReviewInputs → Tables → Decision
decision sha256 p i db =
    decide_review_claim sha256 (review_snapshot p i db.store.job) (review_claim_of p db.store)

fresh_review-decides :
    (sha256 : Text → Text) (p : ReviewResultParams) (i : ReviewInputs) (db db' : Tables)
    (r : Response)
    → fresh_review sha256 p i db ≡ committed (db', r)
    → let ts = (decision sha256 p i db).transitions in
      ((decision sha256 p i db).reject ≡ none)
      × (db' ≡ review_writes p i db ts (final_state db.store.job.state ts))
      × (r ≡ review_response ts (final_state db.store.job.state ts))
unfolding fresh_review decide
fresh_review-decides sha256 p i db db' r h = elim (Option-cases (decision sha256 p i db).reject) [
  | inr (why, refused) ↦ absurd (ground arith)
  | inl ok ↦ (ok, ground arith, ground arith)
]

-- A judgement that mints a verdict moves the job to a state whose update stores it.
judgement-stores :
    (p : ReviewResultParams) (st : JobStore) (f : DomainBFacts) (t : Transition) (seq : ℕ)
    (v : Verdict)
    → IsJudgement f t
    → minted_of none (t ∷ []) ≡ some v
    → (reviewed_row p st (t ∷ []) seq t.to).verdict ≡ some v
unfolding reviewed_row minted_of move verdict_minted_move
judgement-stores p st f t seq v accumulated m = absurd (ground arith)
judgement-stores p st f t seq v (minted w head base green) m = m
judgement-stores p st f t seq v bounced m = absurd (ground arith)
judgement-stores p st f t seq v parked m = absurd (ground arith)

decision-stores :
    (sha256 : Text → Text) (p : ReviewResultParams) (i : ReviewInputs) (db : Tables) (v : Verdict)
    → (decision sha256 p i db).reject ≡ none
    → let ts = (decision sha256 p i db).transitions in
      minted_of none ts ≡ some v
      → (review_writes p i db ts (final_state db.store.job.state ts)).store.job.verdict ≡ some v
unfolding review_writes final_state
decision-stores sha256 p i db v ok m =
    let s = review_snapshot p i db.store.job in
    let (_, _, (t, j, e)) = review_claim-IsJudgement sha256 s (review_claim_of p db.store) ok in
    rw e (judgement-stores p db.store s.github t _ v j (rw e at m))

review_claim-inj :
    (c d : ReviewClaim) → EngineEvent.review_claim c ≡ EngineEvent.review_claim d → c ≡ d
review_claim-inj c d h = ground arith

-- What a minted verdict `v` rests on, and where it goes, in the store's terms.
pub record IsQuorate (sha256 : Text → Text) (p : ReviewResultParams) (i : ReviewInputs)
    (db db' : Tables) (r : Response) (v : Verdict) : Type 0 where
  pub claimed : p.claim ≡ approved_value
  pub green : gate_predicate (judged_facts db.store.job i) ≡ true
  pub stored : db'.store.job.verdict ≡ some v
  pub answered : r.verdict ≡ v.value
  pub bound : verify sha256 v i.facts.head_sha i.facts.base_sha ≡ true
  pub quorum :
      required_reviewers_or_default i.policy
      ≤ℤ pos
          (distinct_actors (approvals db.store.events ++ verdict_claim_event p db.store.job ∷ []))

-- A verdict is the word of enough distinct reviewers. A review whose reviewer has not approved in this
-- round, and that is answered with a minted verdict, claims `approved` on facts that pass the gate,
-- with the job's own SHAs and its live epoch's CI taken into account. The row then holds a verdict
-- whose value is the answered one and that verifies at the reconciled pair, and the distinct
-- identities among the approvals of the tally, this one included, are as many as the policy requires.
pub fresh_review-IsQuorate :
    (sha256 : Text → Text) (p : ReviewResultParams) (i : ReviewInputs) (db db' : Tables)
    (r : Response)
    → fresh_review sha256 p i db ≡ committed (db', r)
    → r.minted ≡ true
    → approved_in_round db.store.job.bound_identity db.store.events ≡ false
    → (v : Verdict) × IsQuorate sha256 p i db db' r v
unfolding decide review_snapshot review_claim_of judged_facts verdict_claim_event
fresh_review-IsQuorate sha256 p i db db' r h m fresh =
    let s = review_snapshot p i db.store.job in
    let c = review_claim_of p db.store in
    let (ok, written, answer) = fresh_review-decides sha256 p i db db' r h in
    let ts = (decide_review_claim sha256 s c).transitions in
    let (v, carried) = response-minted ts _ (rw answer at m) in
    let (_, same, at, _) =
      decide-mints sha256 s (EngineEvent.review_claim c) v
        (sym (decision-carries sha256 s c) ∙ carried) in
    let from = subst (λ x. MintedFrom sha256 s x v) (sym (review_claim-inj c _ same)) at in
    let e = verdict_claim_event p db.store.job in
    (
      v,
      record {
        claimed = from.claimed;
        green = from.green;
        stored =
            ap (λ d. d.store.job.verdict) written ∙ (decision-stores sha256 p i db v ok carried);
        answered = ap (λ a. a.verdict) answer ∙ (response-value ts _ v carried);
        bound = from.bound;
        quorum = rw (prior_approvals-new db.store.events e fresh) from.reviewed;
      },
    )
