-- ===== src/Store/Release/Divergence.antt =====
-- Where the row that `Release` of internal/store/queries.go leaves is not the fold of its events.
use flowbee.Base.{
  ℕ, ◌≡◌, ◌∙◌, refl, sym, ap, subst, false, if◌then◌else◌, [], ◌∷◌, ◌++◌, some, arith,
}
use flowbee.Base.Text.{Text}
use flowbee.Job.State.{State, spec_authoring, spec_review, spec_author, spec_reviewer}
use flowbee.Job.Transition.{next}
use flowbee.Job.Record.{Job}
use flowbee.Ledger.Event.{zero_payload}
use flowbee.Ledger.Cases.Lease.{lease_released_case}
use flowbee.Ledger.Cases.Shared.{clear_lease}
use flowbee.Ledger.Fold.{
  fold, apply_event, fold_kind, sync_notes, sync_gate, sync_caps, sync_role, is_human_gate,
}
use flowbee.Ledger.Fold.Invariants.{IsConsistent, HasRole, fold-IsConsistent}
use flowbee.Store.Row.{JobStore}
use flowbee.Store.Release.{
  ReleaseParams, rearm_state, burns_attempt, released_event, released_row, is_exhausted,
  apply_release, store_release,
}
use flowbee.Store.Row.Replay.{fold-append}
use flowbee.Store.Release.Projection.{store_release-some}

review_rearms : (s : State) → s ≡ spec_review → rearm_state s ≡ spec_authoring
unfolding rearm_state next
review_rearms s at = ground arith

-- What a release of a spec review writes, short of an exhaustion.
review_release :
    (p : ReleaseParams) (st : JobStore)
    → st.job.state ≡ spec_review
    → is_exhausted st.job (burns_attempt p spec_authoring) ≡ false
    → (delta : ℕ) × ((apply_release p st
          (rearm_state st.job.state)
          (burns_attempt p (rearm_state st.job.state))).job
        ≡ released_row st.job spec_authoring delta)
      × ((apply_release p st
            (rearm_state st.job.state)
            (burns_attempt p (rearm_state st.job.state))).events
          ≡ st.events ++ (released_event p st.job spec_authoring delta ∷ []))
unfolding apply_release
review_release p st at calm = (
  if burns_attempt p spec_authoring then 1 else 0,
  rw (review_rearms st.job.state at, calm) refl,
  rw (review_rearms st.job.state at, calm) refl,
)

author_event-HasRole :
    (p : ReleaseParams) (j : Job) (delta : ℕ)
    → HasRole (apply_event j (released_event p j spec_authoring delta)) spec_author
unfolding apply_event released_event fold_kind lease_released_case clear_lease zero_payload
    sync_notes sync_gate sync_caps sync_role is_human_gate
author_event-HasRole p j delta = (refl, refl)

released_row-HasRole :
    (j : Job) (delta : ℕ)
    → j.state ≡ spec_review
    → IsConsistent j
    → ((released_row j spec_authoring delta).state ≡ spec_authoring)
      × HasRole (released_row j spec_authoring delta) spec_reviewer
unfolding released_row
released_row-HasRole j delta at c = (refl, c.reviewing at)

-- The release of a spec reviewer breaks it. The row keeps the reviewer's role at spec_authoring,
-- where the fold of its events has the author's.
pub store_release_diverges :
    (sha256 : Text → Text) (p : ReleaseParams) (st st' : JobStore)
    → st.job ≡ fold st.events
    → st.job.state ≡ spec_review
    → is_exhausted st.job (burns_attempt p spec_authoring) ≡ false
    → store_release sha256 p st ≡ some st'
    → (st'.job.state ≡ spec_authoring)
      × HasRole st'.job spec_reviewer
      × HasRole (fold st'.events) spec_author
store_release_diverges sha256 p st st' same at calm h =
    let (_, held, done) = store_release-some sha256 p st st' h in
    let (delta, row, logged) = review_release p st at calm in
    let consistent = subst IsConsistent (sym same) (fold-IsConsistent st.events) in
    let (there, reviewer) = released_row-HasRole st.job delta at consistent in
    let row' : st'.job ≡ released_row st.job spec_authoring delta = ap (λ s. s.job) done ∙ row in
    let e = released_event p st.job spec_authoring delta in
    let folded : fold st'.events ≡ apply_event st.job e =
      (ap (λ s. fold s.events) done
        ∙ ap fold logged
        ∙ fold-append st.events e
        ∙ ap (λ j. apply_event j e) (sym same)) in
    (
      ap (λ j. j.state) row' ∙ there,
      subst (λ j. HasRole j spec_reviewer) (sym row') reviewer,
      subst (λ j. HasRole j spec_author) (sym folded) (author_event-HasRole p st.job delta),
    )
