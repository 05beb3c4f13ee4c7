-- ===== src/Store/Lifecycle/Returns.antt =====
-- The release of internal/store/queries.go preserves the soundness of a build.
use flowbee.Base.{
  ◌≡◌, refl, sym, ap, subst, inl, inr, Bool, true, false, ℕ, arith, Bool-cases, Option-cases,
  if◌then◌else◌,
}
use flowbee.Base.Text.{Text}
use flowbee.Job.State.{State, ready, has_active_lease}
use flowbee.Job.Transition.{next}
use flowbee.Ledger.Event.{zero_payload}
use flowbee.Ledger.Fold.{fold_kind}
use flowbee.Ledger.Cases.Lease.{lease_released_case}
use flowbee.Ledger.Cases.Build.{state_changed_case}
use flowbee.Ledger.Cases.Shared.{clear_lease}
use flowbee.Store.Release.{
  ReleaseParams, rearm_state, apply_release, released_row, released_event, is_exhausted,
  exhausted_row, exhausted_event, burns_attempt, store_release,
}
use flowbee.Store.Release.Projection.{
  FitsRole, released-apply_event, exhausted-apply_event, store_release-some,
}
use flowbee.Store.Return.{release_writes, return_lease}
use flowbee.Store.Row.{JobStore, logged}
use flowbee.Store.Row.Replay.{replayed-IsConsistent}
use flowbee.Store.Tables.{Tables, committed, append}
use flowbee.Store.Lifecycle.Soundness.{
  active_open, IsSound, append-IsSound, is_build_stage, is_worked,
}

ready_worked :
    (s : State)
    → is_build_stage s ≡ true
    → has_active_lease s ≡ true
    → rearm_state s ≡ ready
    → is_worked s ≡ true
unfolding rearm_state next has_active_lease
ready_worked s p a to = ground arith

rearmed_stage :
    (s : State)
    → is_build_stage s ≡ true
    → has_active_lease s ≡ true
    → (is_build_stage (rearm_state s) ≡ true) × (is_worked (rearm_state s) ≡ false)
unfolding rearm_state next has_active_lease
rearmed_stage s p a = ground arith

build-FitsRole :
    (st : JobStore) → IsSound st → has_active_lease st.job.state ≡ true → FitsRole st.job
build-FitsRole st s a = (
  λ to k. s.worked (ready_worked st.job.state s.placed a to),
  λ to. absurd (ground (arith, (rearmed_stage st.job.state s.placed a).0, to)),
)

module _ (p : ReleaseParams) (st : JobStore) (s : IsSound st)
    (a : has_active_lease st.job.state ≡ true) where
  released-IsSound :
      (delta : ℕ)
      → IsSound (
          append
            (released_row st.job (rearm_state st.job.state) delta)
            (released_event p st.job (rearm_state st.job.state) delta)
            st)
  unfolding released_row released_event fold_kind lease_released_case clear_lease zero_payload
      logged
  released-IsSound delta =
      let to = rearm_state st.job.state in
      let (stage, idle) = rearmed_stage st.job.state s.placed a in
      append-IsSound st (released_row st.job to delta) (released_event p st.job to delta) s
        (λ j. refl)
        (ap logged (
          sym (
            released-apply_event p st.job delta a (replayed-IsConsistent st s.replayed)
              (build-FitsRole st s a))))
        s.builds stage (λ w. absurd (ground (arith, w, idle)))
        (λ v. s.unjudged (active_open st.job.state a).1) refl

  exhausted-IsSound :
      (delta : ℕ)
      → IsSound (
          append
            (exhausted_row (released_row st.job (rearm_state st.job.state) delta))
            (exhausted_event p st.job (rearm_state st.job.state))
            (append
              (released_row st.job (rearm_state st.job.state) delta)
              (released_event p st.job (rearm_state st.job.state) delta)
              st))
  unfolding released_row exhausted_row exhausted_event fold_kind state_changed_case zero_payload
      logged append
  exhausted-IsSound delta =
      let to = rearm_state st.job.state in
      append-IsSound _ (exhausted_row (released_row st.job to delta)) (exhausted_event p st.job to)
        (released-IsSound delta) (λ j. refl)
        (ap logged (sym (exhausted-apply_event p st.job to delta))) s.builds refl
        (λ w. absurd (ground (arith, w))) (λ v. s.unjudged (active_open st.job.state a).1) refl

  apply_release-IsSound :
      (burns : Bool) → IsSound (apply_release p st (rearm_state st.job.state) burns)
  unfolding apply_release append
  apply_release-IsSound burns = elim (Bool-cases (is_exhausted st.job burns)) [
    | inl e ↦ rw e (exhausted-IsSound (if burns then 1 else 0))
    | inr e ↦ rw e (released-IsSound (if burns then 1 else 0))
  ]

pub return_lease-committed :
    (sha256 : Text → Text) (p : ReleaseParams) (db db' : Tables)
    → return_lease sha256 p db ≡ committed db'
    → (p.epoch ≡ db.store.job.lease_epoch)
      × (has_active_lease db.store.job.state ≡ true)
      × (db'
          ≡ release_writes db (
              apply_release p db.store
                (rearm_state db.store.job.state)
                (burns_attempt p (rearm_state db.store.job.state))))
unfolding return_lease
return_lease-committed sha256 p db db' h = elim (Option-cases (store_release sha256 p db.store)) [
  | inl e ↦ absurd (ground arith)
  | inr (st, e) ↦
      let (live, held, done) = store_release-some sha256 p db.store st e in
      (live, held, ground arith)
]

pub return_lease-IsSound :
    (sha256 : Text → Text) (p : ReleaseParams) (db db' : Tables)
    → return_lease sha256 p db ≡ committed db'
    → IsSound db.store
    → IsSound db'.store
unfolding release_writes
return_lease-IsSound sha256 p db db' h s =
    let (_, held, e) = return_lease-committed sha256 p db db' h in
    subst (λ d. IsSound d.store) (sym e) (apply_release-IsSound p db.store s held _)
