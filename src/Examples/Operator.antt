-- ===== src/Examples/Operator.antt =====
-- The theorems on requeues and cancels of internal/store/requeue.go, applied to a build that a worker holds.
use flowbee.Base.{◌≡◌, ◌↔◌, refl, inl, true, some, arith}
use flowbee.Store.Tables.{Tables}
use flowbee.Ledger.Fold.{fold}
use flowbee.Store.Row.Replay.{IsReplayed}
use flowbee.Store.Lifecycle.Soundness.{IsSound}
use flowbee.Store.Lifecycle.Steps.{here, next, claims, Reach-IsSound}
use flowbee.Store.Lifecycle.Zombies.{IsPowerless}
use flowbee.Store.Requeue.{requeue_job, apply_requeue, requeue_state}
use flowbee.Store.Requeue.Replays.{IsUnbound, requeue_job_replays_iff}
use flowbee.Store.Requeue.Fences.{requeue_job-IsPowerless}
use flowbee.Examples.Samples.{digest}
use flowbee.Examples.Build.{
  born-IsSound, claimed, commits, no_lease, nobody, opening, taken, taking, took,
}
use flowbee.Store.Claim.{claim_ready_job}

taken-IsSound : IsReplayed taken.store × IsSound taken.store
taken-IsSound = Reach-IsSound digest opening taken born-IsSound (
    next here (
      claims taking nobody claimed
        (commits opening no_lease (claim_ready_job taking opening nobody) took)))

abbrev requeued : Tables
requeued = apply_requeue 50 taken

forced : requeue_job true 50 taken ≡ some (requeued, requeue_state taken.store.job)
unfolding requeue_job
forced = refl

requeue_job_replays_iff_example :
    (IsReplayed requeued.store ↔ IsUnbound taken.store.job)
    × (requeued.store.job.enqueued_at ≡ 50)
    × ((fold requeued.store.events).enqueued_at ≡ (fold taken.store.events).enqueued_at)
requeue_job_replays_iff_example =
    requeue_job_replays_iff true 50 taken requeued (requeue_state taken.store.job)
      (inl taken-IsSound.1.builds) taken-IsSound.0 forced

requeue_job-IsPowerless_example : IsPowerless digest 0 requeued
requeue_job-IsPowerless_example =
    requeue_job-IsPowerless digest true 50 0 taken requeued (requeue_state taken.store.job)
      (omega arith) (inl forced)
