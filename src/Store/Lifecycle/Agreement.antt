-- ===== src/Store/Lifecycle/Agreement.antt =====
-- The updates of `ReviewResult` of internal/store/flow.go against the folds of the events that it appends.
use flowbee.Base.{
  add_zero, ℕ, ◌+◌, ◌≡◌, refl, sym, ap, ◌∙◌, inl, inr, Bool, true, false, List, [], ◌∷◌, some,
  arith, Bool-cases, if◌then◌else◌,
}
use flowbee.Base.Text.{Text, text_eq_iff, bytes, is_empty}
use flowbee.Job.State.{ready, review_pending, code_review, mergeable, needs_human}
use flowbee.Job.Record.{Job}
use flowbee.Job.Verdict.{Verdict}
use flowbee.Job.Gate.{gate_predicate}
use flowbee.Ledger.Event.{Event, EventKind, zero_payload}
use flowbee.Ledger.Event.EventKind.{review_approved, review_bounced}
use flowbee.Ledger.Cases.Build.{
  verdict_minted_case, review_bounced_case, review_approved_case, bounce_case, bind_verdict,
}
use flowbee.Ledger.Cases.Shared.{clear_lease, set_if, is_ready}
use flowbee.Ledger.Fold.{apply_event, fold_kind, is_human_gate}
use flowbee.Engine.Types.{Transition, move}
use flowbee.Engine.Review.{verdict_minted_move, is_mergeable}
use flowbee.Store.Row.{JobStore, logged}
use flowbee.Store.Row.Replay.{replayed-IsConsistent}
use flowbee.Store.Tables.{append}
use flowbee.Store.Result.{moved_on_row}
use flowbee.Store.Verdicts.{
  ReviewResultParams, ReviewInputs, judged_facts, verdict_claim_event, review_event, reviewed_row,
  minted_of, minted_head, bounces_of, is_capped, facts_moved, epoch_gate,
}
use flowbee.Store.Lifecycle.Rounds.{rearmed, apply_event-rearmed}
use flowbee.Store.Lifecycle.Soundness.{
  build_stage_other, IsSound, append-IsSound, settled-logged, is_build_stage,
}
use flowbee.Store.Lifecycle.Judgements.{
  IsJudgement, accumulated, minted, bounced, parked, bounced_to,
}

-- An event whose case moves a build that is in no human gate to a state of its way to the verdict: the
-- update agrees with the fold if it agrees with the round of `Fold`.
pub case-logged :
    (st : JobStore) (r row : Job) (e : Event)
    → IsSound st
    → is_human_gate st.job.state ≡ false
    → fold_kind e.kind e st.job ≡ r
    → e.payload.ci_failures ≡ []
    → (r.kind ≡ st.job.kind)
      × (r.escalation_reason ≡ st.job.escalation_reason)
      × (r.over_budget ≡ st.job.over_budget)
    → is_build_stage r.state ≡ true
    → (is_human_gate r.state ≡ false → e.payload.escalation_reason ≡ [])
    → logged row
      ≡ logged
          (record (rearmed r.state (record r {
            escalation_reason = set_if e.payload.escalation_reason r.escalation_reason;
          })) { job_seq = e.job_seq })
    → logged row ≡ logged (apply_event st.job e)
unfolding logged
case-logged st r row e s open_case f ci (k, n, o) stage q h =
    let c = replayed-IsConsistent st s.replayed in
    let (spec, off) = build_stage_other r.state stage in
    h
    ∙ ap logged (
        sym (
          apply_event-rearmed st.job r e f ci (
            k ∙ s.builds,
            spec,
            n ∙ c.reason_gated open_case,
            o ∙ c.budget_gated open_case,
            q,
            λ at. absurd (off at),
          )))

-- The reviewer's claim is recorded, and changes nothing else.
abbrev pub recorded_row : Job → Job
recorded_row j = record j { job_seq = j.job_seq + 1 }

abbrev pub claimed_store : ReviewResultParams → JobStore → JobStore
claimed_store p st = append (recorded_row st.job) (verdict_claim_event p st.job) st

pub claimed_store-IsSound :
    (p : ReviewResultParams) (st : JobStore) → IsSound st → IsSound (claimed_store p st)
unfolding verdict_claim_event fold_kind zero_payload logged
claimed_store-IsSound p st s =
    append-IsSound st (recorded_row st.job) (verdict_claim_event p st.job) s (λ j. refl)
      (settled-logged st.job st.job (recorded_row st.job) (verdict_claim_event p st.job) refl
        (refl, refl, refl) (replayed-IsConsistent st s.replayed) refl)
      s.builds s.placed s.worked s.unjudged refl

-- The row and the event of a judgement, next to each other.
abbrev pub JudgementAgrees : ReviewResultParams → JobStore → Transition → Type 0
JudgementAgrees p st t =
    logged (reviewed_row p st (t ∷ []) (st.job.job_seq + 1 + 1) t.to)
    ≡ logged (apply_event (claimed_store p st).job (review_event p st (st.job.job_seq + 1 + 1) t))

epoch_gate-green :
    (n : ℕ) (rows : List (ℕ × Text)) (b : Bool) → epoch_gate n rows b ≡ true → b ≡ true
unfolding epoch_gate
epoch_gate-green n [] b h = h
epoch_gate-green n (row ∷ rows) b h = ground arith

-- Facts that pass the gate have the base that the job knows.
judged_base :
    (j : Job) (i : ReviewInputs)
    → gate_predicate (judged_facts j i) ≡ true
    → is_empty j.base_sha ≡ false
    → (i.facts.base_sha ≡ j.base_sha) × (is_empty i.facts.head_sha ≡ false)
unfolding judged_facts gate_predicate facts_moved
judged_base j i g b =
    let green : epoch_gate j.build_epoch i.epoch_ci
          (if facts_moved j i.facts then false else i.facts.ci_green)
        ≡ true =
      ground arith in
    let kept = epoch_gate-green j.build_epoch i.epoch_ci _ green in
    ground (arith, kept, text_eq_iff i.facts.base_sha j.base_sha)

module _ (p : ReviewResultParams) (st : JobStore) (s : IsSound st)
    (at : st.job.state ≡ code_review) where
  bounced-agrees : JudgementAgrees p st (bounced_to ready review_bounced)
  unfolding reviewed_row moved_on_row review_event fold_kind review_bounced_case clear_lease
      zero_payload logged is_human_gate is_ready set_if is_empty move bounces_of append
  bounced-agrees =
      let t = bounced_to ready review_bounced in
      let e = review_event p st (st.job.job_seq + 1 + 1) t in
      let c = claimed_store p st in
      case-logged c (review_bounced_case e c.job)
        (reviewed_row p st (t ∷ []) (st.job.job_seq + 1 + 1) ready) e (claimed_store-IsSound p st s)
        (rw at refl) refl refl (refl, refl, refl) refl (λ h. refl) refl

  accumulated-agrees : JudgementAgrees p st (move code_review review_pending review_approved)
  unfolding reviewed_row moved_on_row review_event fold_kind review_approved_case clear_lease
      zero_payload logged is_human_gate is_ready set_if is_empty move bounces_of append
  accumulated-agrees =
      let t = move code_review review_pending review_approved in
      let e = review_event p st (st.job.job_seq + 1 + 1) t in
      let c = claimed_store p st in
      case-logged c (review_approved_case e c.job)
        (reviewed_row p st (t ∷ []) (st.job.job_seq + 1 + 1) review_pending) e
        (claimed_store-IsSound p st s) (rw at refl) refl refl (refl, refl, refl) refl (λ h. refl)
        refl

  parked-agrees : JudgementAgrees p st (bounced_to needs_human EventKind.bounce_exhausted)
  unfolding reviewed_row moved_on_row review_event fold_kind bounce_case clear_lease zero_payload
      logged is_human_gate is_ready set_if is_empty move bounces_of append minted_of minted_head
      is_mergeable bytes
  parked-agrees =
      let t = bounced_to needs_human EventKind.bounce_exhausted in
      let e = review_event p st (st.job.job_seq + 1 + 1) t in
      let c = claimed_store p st in
      case-logged c (bounce_case e c.job)
        (reviewed_row p st (t ∷ []) (st.job.job_seq + 1 + 1) needs_human) e
        (claimed_store-IsSound p st s) (rw at refl) refl refl (refl, refl, refl) refl
        (λ h. absurd (ground (arith, h)))
        (elim (Bool-cases (is_capped p st)) [
          | inl h ↦ rw (h, s.unjudged (rw at refl)) refl
          | inr h ↦ rw (h, s.unjudged (rw at refl)) refl
        ])

  minted-agrees :
      (v : Verdict)
      → is_empty v.head_sha ≡ false
      → v.base_sha ≡ st.job.base_sha
      → JudgementAgrees p st (verdict_minted_move (some v))
  unfolding reviewed_row moved_on_row review_event fold_kind verdict_minted_case clear_lease
      zero_payload logged is_human_gate is_ready set_if is_empty move bounces_of append minted_of
      minted_head bind_verdict verdict_minted_move
  minted-agrees v head base =
      let t = verdict_minted_move (some v) in
      let e = review_event p st (st.job.job_seq + 1 + 1) t in
      let c = claimed_store p st in
      case-logged c (verdict_minted_case e c.job)
        (reviewed_row p st (t ∷ []) (st.job.job_seq + 1 + 1) mergeable) e
        (claimed_store-IsSound p st s) (rw at refl) refl refl (refl, refl, refl) refl (λ h. refl)
        (rw (add_zero st.job.bounces, head, base, s.based) refl)

  -- Whatever the gate says, the row is updated the way its event folds.
  pub judgement-agrees :
      (i : ReviewInputs) (t : Transition)
      → IsJudgement (judged_facts st.job i) t
      → JudgementAgrees p st t
  unfolding judged_facts
  judgement-agrees i t accumulated = accumulated-agrees
  judgement-agrees i t bounced = bounced-agrees
  judgement-agrees i t parked = parked-agrees
  judgement-agrees i t (minted v head base green) =
      let (known, there) = judged_base st.job i green s.based in
      minted-agrees v (rw head there) (base ∙ known)
