-- ===== src/Store/Release/Projection.antt =====
-- The row that `Release` of internal/store/queries.go leaves, against the fold of its events.
use flowbee.Base.{
  ℕ, ◌≡◌, ◌∙◌, refl, sym, ap, subst, inl, inr, Bool, true, if◌then◌else◌, [], ◌∷◌, ◌++◌, some,
  arith, Bool-cases,
}
use flowbee.Base.Text.{Text, bytes, is_empty}
use flowbee.Job.State.{
  State, ready, spec_authoring, has_active_lease, build, spec_author, eng_worker,
}
use flowbee.Job.Transition.{next}
use flowbee.Job.Record.{Job}
use flowbee.Ledger.Event.{zero_payload}
use flowbee.Ledger.Cases.Lease.{lease_released_case}
use flowbee.Ledger.Cases.Build.{state_changed_case}
use flowbee.Ledger.Cases.Shared.{clear_lease, set_if}
use flowbee.Ledger.Fold.{
  fold, apply_event, fold_kind, sync_notes, sync_gate, sync_caps, sync_role, is_human_gate,
}
use flowbee.Ledger.Fold.Invariants.{IsConsistent, HasRole, fold-IsConsistent}
use flowbee.Engine.Types.{fenced, rejected}
use flowbee.Engine.Lease.{decide_release}
use flowbee.Engine.{decide}
use flowbee.Store.Row.{JobStore}
use flowbee.Store.Row.Replay.{fold-append, apply_event-settled}
use flowbee.Store.Release.{
  ReleaseParams, release_snapshot, rearm_state, burns_attempt, released_event, released_row,
  is_exhausted, exhausted_event, exhausted_row, apply_release, store_release,
}

-- The row already has the role of the state that the release goes to.
abbrev pub FitsRole : Job → Type 0
FitsRole j =
    (rearm_state j.state ≡ ready → j.kind ≡ build → HasRole j eng_worker)
    × (rearm_state j.state ≡ spec_authoring → HasRole j spec_author)

released_row-IsConsistent :
    (j : Job) (delta : ℕ)
    → has_active_lease j.state ≡ true
    → IsConsistent j
    → FitsRole j
    → IsConsistent (record (released_row j (rearm_state j.state) delta) { job_seq = j.job_seq })
unfolding released_row rearm_state next has_active_lease is_human_gate
released_row-IsConsistent j delta a c f = ground arith

pub released-apply_event :
    (p : ReleaseParams) (j : Job) (delta : ℕ)
    → has_active_lease j.state ≡ true
    → IsConsistent j
    → FitsRole j
    → apply_event j (released_event p j (rearm_state j.state) delta)
      ≡ released_row j (rearm_state j.state) delta
unfolding released_row released_event fold_kind lease_released_case clear_lease zero_payload
released-apply_event p j delta a c f =
    apply_event-settled j
      (record (released_row j (rearm_state j.state) delta) { job_seq = j.job_seq })
      (released_event p j (rearm_state j.state) delta) refl (refl, refl, refl)
      (released_row-IsConsistent j delta a c f)

pub exhausted-apply_event :
    (p : ReleaseParams) (j : Job) (to : State) (delta : ℕ)
    → apply_event (released_row j to delta) (exhausted_event p j to)
      ≡ exhausted_row (released_row j to delta)
unfolding released_row exhausted_row exhausted_event apply_event fold_kind state_changed_case
    sync_notes sync_gate sync_caps sync_role is_human_gate set_if is_empty zero_payload bytes
exhausted-apply_event p j to delta = refl

-- A release that the engine lets through is a release with the live epoch of a lease that is held.
pub store_release-some :
    (sha256 : Text → Text) (p : ReleaseParams) (st st' : JobStore)
    → store_release sha256 p st ≡ some st'
    → (p.epoch ≡ st.job.lease_epoch)
      × (has_active_lease st.job.state ≡ true)
      × (st'
          ≡ apply_release p st
              (rearm_state st.job.state)
              (burns_attempt p (rearm_state st.job.state)))
unfolding store_release release_snapshot decide decide_release fenced rejected
store_release-some sha256 p st st' h = ground arith

module _ (p : ReleaseParams) (st : JobStore) (same : st.job ≡ fold st.events)
    (held : has_active_lease st.job.state ≡ true) (fits : FitsRole st.job) where
  -- The row is the fold after the first event.
  released_fold :
      (delta : ℕ)
      → released_row st.job (rearm_state st.job.state) delta
        ≡ fold (st.events ++ (released_event p st.job (rearm_state st.job.state) delta ∷ []))
  released_fold delta =
      let e = released_event p st.job (rearm_state st.job.state) delta in
      let consistent = subst IsConsistent (sym same) (fold-IsConsistent st.events) in
      sym (
        fold-append st.events e
        ∙ ap (λ j. apply_event j e) (sym same)
        ∙ released-apply_event p st.job delta held consistent fits)

  -- And after the second, where there is one.
  exhausted_fold :
      (delta : ℕ)
      → exhausted_row (released_row st.job (rearm_state st.job.state) delta)
        ≡ fold (
            (st.events ++ (released_event p st.job (rearm_state st.job.state) delta ∷ []))
            ++ (exhausted_event p st.job (rearm_state st.job.state) ∷ []))
  exhausted_fold delta =
      let to = rearm_state st.job.state in
      let e = exhausted_event p st.job to in
      sym (
        fold-append (st.events ++ (released_event p st.job to delta ∷ [])) e
        ∙ ap (λ j. apply_event j e) (sym (released_fold delta))
        ∙ exhausted-apply_event p st.job to delta)

  apply_release-fold :
      (burns : Bool)
      → (apply_release p st (rearm_state st.job.state) burns).job
        ≡ fold (apply_release p st (rearm_state st.job.state) burns).events
  unfolding apply_release
  apply_release-fold burns = elim (Bool-cases (is_exhausted st.job burns)) [
    | inl e ↦ rw e (exhausted_fold (if burns then 1 else 0))
    | inr e ↦ rw e (released_fold (if burns then 1 else 0))
  ]

-- The row stays the fold of the ledger. If the row of a job is the fold of its events, and its role
-- is the one that its next state calls for, then after a release that goes through, with or without
-- the escalation of an exhausted job, the row is again the fold of the events, the new ones
-- included.
pub store_release-fold :
    (sha256 : Text → Text) (p : ReleaseParams) (st st' : JobStore)
    → st.job ≡ fold st.events
    → FitsRole st.job
    → store_release sha256 p st ≡ some st'
    → st'.job ≡ fold st'.events
store_release-fold sha256 p st st' same fits h =
    let (_, held, done) = store_release-some sha256 p st st' h in
    subst (λ s. s.job ≡ fold s.events) (sym done)
      (apply_release-fold p st same held fits (burns_attempt p (rearm_state st.job.state)))
