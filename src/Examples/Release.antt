-- ===== src/Examples/Release.antt =====
-- The theorems on `Release` of internal/store/queries.go, applied to a build and to a spec review.
use flowbee.Base.{◌≡◌, refl, true, false, List, [], ◌∷◌, some, arith}
use flowbee.Base.Text.{is_empty}
use flowbee.Job.State.{State, unset, ready, Kind, build}
use flowbee.Job.Record.{zero_job}
use flowbee.Ledger.Event.{Event, EventKind, zero_payload}
use flowbee.Ledger.Fold.{
  fold, fold_from, apply_event, fold_kind, sync_notes, sync_gate, sync_caps, sync_role,
  is_human_gate,
}
use flowbee.Examples.Replay.{event}
use flowbee.Examples.Samples.{digest}
use flowbee.Job.State.{
  leased, spec_review, spec_authoring, Role, eng_worker, spec_author, spec_reviewer, role_caps,
  spec, has_active_lease,
}
use flowbee.Job.Transition.{next}
use flowbee.Ledger.Cases.Board.{job_created_case}
use flowbee.Ledger.Cases.Lease.{lease_claimed_case}
use flowbee.Ledger.Cases.Shared.{is_ready}
use flowbee.Ledger.Fold.Invariants.{HasRole}
use flowbee.Engine.{decide}
use flowbee.Engine.Types.{fenced, moving}
use flowbee.Engine.Lease.{decide_release}
use flowbee.Store.Row.{JobStore}
use flowbee.Store.Release.{
  ReleaseParams, release_snapshot, rearm_state, burns_attempt, is_penalized, is_exhausted,
  apply_release, store_release,
}
use flowbee.Store.Release.Projection.{FitsRole, store_release-fold}
use flowbee.Store.Release.Divergence.{store_release_diverges}

abbrev created : State → Kind → Role → Event
created to kind role =
    event 1 EventKind.job_created unset to
      (record zero_payload { kind = kind; role = role; required_capabilities = role_caps role })

abbrev store_of : List Event → JobStore
store_of es = record { job = fold es; events = es }

-- A build that a worker has claimed, and a spec that waits for its review under a lease.
abbrev claimed_build : List Event
claimed_build =
    created ready build eng_worker ∷ event 2 EventKind.lease_claimed ready leased zero_payload ∷ []

abbrev claimed_review : List Event
claimed_review = created spec_review spec spec_reviewer ∷ []

abbrev letting_go : ReleaseParams
letting_go = record { epoch = 3; now = 9; no_penalty = false; failed = false }

abbrev letting_review_go : ReleaseParams
letting_review_go = record letting_go { epoch = 0 }

build_role : HasRole (fold claimed_build) eng_worker
unfolding fold fold_from apply_event fold_kind job_created_case lease_claimed_case sync_caps
    sync_role sync_gate sync_notes is_human_gate zero_payload zero_job is_ready is_empty
build_role = (refl, refl)

build_fits : FitsRole (fold claimed_build)
unfolding rearm_state next fold fold_from apply_event fold_kind job_created_case lease_claimed_case
    sync_caps sync_role sync_gate sync_notes is_human_gate zero_payload zero_job is_ready is_empty
build_fits = (λ r k. build_role, λ e. absurd (ground arith))

abbrev released_build : JobStore
released_build = apply_release letting_go (store_of claimed_build) ready true

build_released : store_release digest letting_go (store_of claimed_build) ≡ some released_build
unfolding store_release release_snapshot decide decide_release fenced has_active_lease burns_attempt
    is_penalized rearm_state next fold fold_from apply_event fold_kind job_created_case
    lease_claimed_case sync_caps sync_role sync_gate sync_notes is_human_gate zero_payload zero_job
    is_ready is_empty moving
build_released = refl

store_release-fold_example : released_build.job ≡ fold released_build.events
store_release-fold_example =
    store_release-fold digest letting_go (store_of claimed_build) released_build refl build_fits
      build_released

abbrev released_review : JobStore
released_review = apply_release letting_review_go (store_of claimed_review) spec_authoring false

review_released :
    store_release digest letting_review_go (store_of claimed_review) ≡ some released_review
unfolding store_release release_snapshot decide decide_release fenced has_active_lease burns_attempt
    is_penalized rearm_state next fold fold_from apply_event fold_kind job_created_case
    lease_claimed_case sync_caps sync_role sync_gate sync_notes is_human_gate zero_payload zero_job
    is_ready is_empty moving
review_released = refl

review_calm :
    is_exhausted (fold claimed_review) (burns_attempt letting_review_go spec_authoring) ≡ false
unfolding is_exhausted burns_attempt is_penalized
review_calm = refl

review_state : (fold claimed_review).state ≡ spec_review
unfolding fold fold_from apply_event fold_kind job_created_case lease_claimed_case sync_caps
    sync_role sync_gate sync_notes is_human_gate zero_payload zero_job is_ready is_empty
review_state = refl

store_release_diverges_example :
    (released_review.job.state ≡ spec_authoring)
    × HasRole released_review.job spec_reviewer
    × HasRole (fold released_review.events) spec_author
store_release_diverges_example =
    store_release_diverges digest letting_review_go (store_of claimed_review) released_review refl
      review_state review_calm review_released
