-- ===== src/Store/Lifecycle/Reviews.antt =====
-- `ClaimReviewJob` and `ReviewResult` of internal/store/flow.go preserve the soundness of a build.
use flowbee.Base.{
  some, ℕ, ◌+◌, ◌≡◌, refl, sym, ◌∙◌, subst, ◌⊎◌, inl, inr, true, false, List, [], ◌∷◌, none, arith,
  Bool-cases, Option-cases,
}
use mathlib.Core.List.{append_assoc}
use flowbee.Base.Text.{Text, is_empty}
use flowbee.Job.State.{review_pending, code_review}
use flowbee.Job.Verdict.{DomainBFacts}
use flowbee.Ledger.Event.{zero_payload}
use flowbee.Ledger.Cases.Build.{
  review_claimed_case, verdict_minted_case, review_bounced_case, review_approved_case, bounce_case,
  bind_verdict,
}
use flowbee.Ledger.Cases.Shared.{clear_lease, set_if, is_ready}
use flowbee.Ledger.Fold.{fold_kind, is_human_gate}
use flowbee.Engine.Types.{Transition, move}
use flowbee.Engine.Review.{verdict_minted_move, is_mergeable}
use flowbee.Store.Row.{JobStore, logged}
use flowbee.Store.Row.Replay.{ReadsLogged}
use flowbee.Store.Tables.{insert_lease, Tables, LeaseRow, Response, committed, append}
use flowbee.Store.Claim.{Lease}
use flowbee.Store.Slots.{Fleet}
use flowbee.Store.Review.{
  claim_review_job, may_review, review_lease, granted_review, is_review_pending, ClaimReviewParams,
  review_claimed_event, review_claimed_row, apply_review_claim,
}
use flowbee.Store.Result.{cached_response, last_seq, moved_on_row}
use flowbee.Store.Verdicts.{
  ReviewResultParams, ReviewInputs, judged_facts, verdict_claim_event, review_event, review_events,
  reviewed_row, minted_of, review_writes, fresh_review, review_result,
}
use flowbee.Store.Lifecycle.Soundness.{IsSound, append-IsSound, is_build_stage, is_worked}
use flowbee.Store.Lifecycle.Agreement.{
  case-logged, claimed_store, claimed_store-IsSound, judgement-agrees,
}
use flowbee.Store.Lifecycle.Judgements.{
  IsJudgement, accumulated, minted, bounced, parked, fresh_review-committed,
}

pub apply_review_claim-IsSound :
    (p : ClaimReviewParams) (db : Tables) (leases : List LeaseRow)
    → IsSound db.store
    → db.store.job.state ≡ review_pending
    → IsSound (apply_review_claim p db leases).store
unfolding apply_review_claim review_claimed_row review_claimed_event fold_kind review_claimed_case
    zero_payload logged is_human_gate is_mergeable is_ready set_if is_empty
apply_review_claim-IsSound p db leases s at =
    let j = db.store.job in
    let e = review_claimed_event p j in
    append-IsSound db.store (review_claimed_row p j) e s (λ j. refl)
      (case-logged db.store (review_claimed_case e j) (review_claimed_row p j) e s (rw at refl) refl
        refl (refl, refl, refl) refl (λ h. refl) refl)
      s.builds refl (λ h. absurd (ground (arith, h))) (λ h. s.unjudged (rw at refl)) refl

judgement-ReadsLogged :
    (f : DomainBFacts) (p : ReviewResultParams) (st : JobStore) (seq : ℕ) (t : Transition)
    → IsJudgement f t
    → ReadsLogged (fold_kind t.kind (review_event p st seq t))
unfolding fold_kind review_approved_case review_bounced_case bounce_case verdict_minted_case
    bind_verdict clear_lease logged move verdict_minted_move review_event
judgement-ReadsLogged f p st seq t accumulated k = refl
judgement-ReadsLogged f p st seq t (minted v head base green) k = refl
judgement-ReadsLogged f p st seq t bounced k = refl
judgement-ReadsLogged f p st seq t parked k = refl

-- What the row has after a judgement, besides what the events say.
reviewed_row-placed :
    (f : DomainBFacts) (p : ReviewResultParams) (st : JobStore) (seq : ℕ) (t : Transition)
    → IsJudgement f t
    → IsSound st
    → st.job.state ≡ code_review
    → (is_build_stage (reviewed_row p st (t ∷ []) seq t.to).state ≡ true)
      × (is_worked (reviewed_row p st (t ∷ []) seq t.to).state ≡ false)
      × (is_mergeable (reviewed_row p st (t ∷ []) seq t.to).state ≡ false
          → (reviewed_row p st (t ∷ []) seq t.to).verdict ≡ none)
      × ((reviewed_row p st (t ∷ []) seq t.to).base_sha ≡ st.job.base_sha)
      × ((reviewed_row p st (t ∷ []) seq t.to).kind ≡ st.job.kind)
unfolding reviewed_row moved_on_row minted_of move verdict_minted_move is_mergeable
reviewed_row-placed f p st seq t accumulated s at =
    (refl, refl, λ h. s.unjudged (rw at refl), refl, refl)
reviewed_row-placed f p st seq t (minted v head base green) s at =
    (refl, refl, λ h. absurd (ground (arith, h)), refl, refl)
reviewed_row-placed f p st seq t bounced s at =
    (refl, refl, λ h. s.unjudged (rw at refl), refl, refl)
reviewed_row-placed f p st seq t parked s at = (refl, refl, λ h. refl, refl, refl)

pub review_writes-IsSound :
    (p : ReviewResultParams) (i : ReviewInputs) (db : Tables) (t : Transition)
    → IsSound db.store
    → db.store.job.state ≡ code_review
    → IsJudgement (judged_facts db.store.job i) t
    → IsSound (review_writes p i db (t ∷ []) t.to).store
unfolding review_writes review_events last_seq append review_event
review_writes-IsSound p i db t s at j =
    let st = db.store in
    let seq = st.job.job_seq + 1 + 1 in
    let row = reviewed_row p st (t ∷ []) seq t.to in
    let e = review_event p st seq t in
    let (stage, idle, v, b, k) = reviewed_row-placed _ p st seq t j s at in
    subst (λ es. IsSound (record { job = row; events = es }))
      (append_assoc st.events (verdict_claim_event p st.job ∷ []) (e ∷ []))
      (append-IsSound (claimed_store p st) row e (claimed_store-IsSound p st s)
        (judgement-ReadsLogged _ p st seq t j) (judgement-agrees p st s at i t j) (k ∙ s.builds)
        stage (λ w. absurd (ground (arith, w, idle))) v b)

pub review_result-cases :
    (sha256 : Text → Text) (p : ReviewResultParams) (i : ReviewInputs) (db db' : Tables)
    (r : Response)
    → review_result sha256 p i db ≡ committed (db', r)
    → (db' ≡ db) ⊎ (fresh_review sha256 p i db ≡ committed (db', r))
unfolding review_result
review_result-cases sha256 p i db db' r h = elim (Bool-cases (is_empty p.idempotency_key)) [
  | inl e ↦ inr (rw e at h)
  | inr e ↦ elim (Option-cases (cached_response p.idempotency_key db.responses)) [
    | inl f ↦ inr (rw (e, f) at h)
    | inr (c, f) ↦ inl (ground arith)
  ]
]

pub review_result-IsSound :
    (sha256 : Text → Text) (p : ReviewResultParams) (i : ReviewInputs) (db db' : Tables)
    (r : Response)
    → review_result sha256 p i db ≡ committed (db', r)
    → IsSound db.store
    → IsSound db'.store
review_result-IsSound sha256 p i db db' r h s = elim (review_result-cases sha256 p i db db' r h) [
  | inl same ↦ subst (λ d. IsSound d.store) (sym same) s
  | inr fresh ↦
      let (_, at, t, j, e, _) = fresh_review-committed sha256 p i db db' r fresh in
      subst (λ d. IsSound d.store) (sym e) (review_writes-IsSound p i db t s at j)
]

pub claim_review_job-committed :
    (p : ClaimReviewParams) (db db' : Tables) (fleet : Fleet) (l : Lease)
    → claim_review_job p db fleet ≡ committed (db', l)
    → (leases : List LeaseRow) × (db.store.job.state ≡ review_pending)
      × (may_review p db fleet ≡ true)
      × (insert_lease (review_lease p db.store.job) db.leases ≡ some leases)
      × (db' ≡ apply_review_claim p db leases)
      × (l ≡ granted_review p db.store.job)
unfolding claim_review_job is_review_pending
claim_review_job-committed p db db' fleet l h =
    elim (Option-cases (insert_lease (review_lease p db.store.job) db.leases)) [
      | inl f ↦ absurd (ground arith)
      | inr (leases, f) ↦ (leases, ground arith, ground arith, f, ground arith, ground arith)
    ]

pub claim_review_job-IsSound :
    (p : ClaimReviewParams) (db db' : Tables) (fleet : Fleet) (l : Lease)
    → claim_review_job p db fleet ≡ committed (db', l)
    → IsSound db.store
    → IsSound db'.store
claim_review_job-IsSound p db db' fleet l h s =
    let (leases, at, _, _, e, _) = claim_review_job-committed p db db' fleet l h in
    subst (λ d. IsSound d.store) (sym e) (apply_review_claim-IsSound p db leases s at)
