-- ===== src/Store/Lifecycle/Zombies.antt =====
-- A worker whose lease has ended, against everything that it may still send to internal/store.
use flowbee.Base.{◌≡◌, refl, ◌⊎◌, inl, inr, true, false, none, ℕ, ◌<◌, arith, Option-cases}
use flowbee.Base.Text.{Text}
use flowbee.Engine.{decide}
use flowbee.Engine.Lease.{work_result_arm}
use flowbee.Job.State.{State, has_active_lease}
use flowbee.Store.Release.{ReleaseParams, release_snapshot, store_release}
use flowbee.Store.Return.{release_writes, return_lease}
use flowbee.Store.Tables.{Tables, Response, stale_epoch, rolled_back, committed}
use flowbee.Store.Heartbeat.{HeartbeatParams, heartbeat_report, heartbeat_writes, store_heartbeat}
use flowbee.Store.Result.{ResultParams, store_result}
use flowbee.Store.Verdicts.{ReviewResultParams, ReviewInputs, review_result}
use flowbee.Store.Lifecycle.Soundness.{IsSound}
use flowbee.Store.Lifecycle.Beats.{store_heartbeat-committed}
use flowbee.Store.Lifecycle.Results.{store_result-cases, fresh_result-committed}
use flowbee.Store.Lifecycle.Returns.{return_lease-committed}
use flowbee.Store.Lifecycle.Judgements.{fresh_review-committed}
use flowbee.Store.Lifecycle.Reviews.{review_result-cases}
use flowbee.Store.Lifecycle.Effects.{Effect, keeps, grants, ends, active, epoch_of}
use flowbee.Store.Lifecycle.Fences.{Step-Effect}
use flowbee.Store.Lifecycle.Steps.{Reach, here, next, Reach-IsSound}

-- The lease of that epoch is over: a later one has been granted or the job has left it.
abbrev pub IsOver : ℕ → Tables → Type 0
IsOver e db = (e < epoch_of db) ⊎ ((e ≡ epoch_of db) × (active db ≡ false))

Effect-IsOver : (e : ℕ) (db db' : Tables) → Effect db db' → IsOver e db → IsOver e db'
Effect-IsOver e db db' (keeps n st l) o = ground arith
Effect-IsOver e db db' (grants r a b n f q l) o = ground arith
Effect-IsOver e db db' (ends why a b n l) o = ground arith

pub Reach-IsOver :
    (sha256 : Text → Text) (e : ℕ) (db db' : Tables)
    → IsSound db.store
    → IsOver e db
    → Reach sha256 db db'
    → IsOver e db'
Reach-IsOver sha256 e db db' s o here = o
Reach-IsOver sha256 e db db' s o (next r st) =
    let (_, t) = Reach-IsSound sha256 db _ s r in
    Effect-IsOver e _ db' (Step-Effect sha256 t st) (Reach-IsOver sha256 e db _ s o r)

-- What a worker may still send under a lease, and how the store answers once the lease is over. A
-- result or a review with a key that has its response already gets it again, and nothing is written.
pub record IsPowerless (sha256 : Text → Text) (e : ℕ) (db : Tables) : Type 0 where
  pub beat :
      (p : HeartbeatParams) → p.epoch ≡ e → store_heartbeat sha256 p db ≡ rolled_back stale_epoch
  pub back : (p : ReleaseParams) → p.epoch ≡ e → return_lease sha256 p db ≡ rolled_back stale_epoch
  pub result :
      (delay : ℕ) (p : ResultParams) (db' : Tables) (r : Response)
      → p.epoch ≡ e
      → store_result sha256 delay p db ≡ committed (db', r)
      → db' ≡ db
  pub review :
      (p : ReviewResultParams) (i : ReviewInputs) (db' : Tables) (r : Response)
      → p.epoch ≡ e
      → review_result sha256 p i db ≡ committed (db', r)
      → db' ≡ db

beat_refused :
    (sha256 : Text → Text) (p : HeartbeatParams) (db : Tables)
    → IsOver p.epoch db
    → store_heartbeat sha256 p db ≡ rolled_back stale_epoch
unfolding store_heartbeat
beat_refused sha256 p db o =
    let dec = decide sha256 (release_snapshot db.store.job p.now) (heartbeat_report p) in
    elim (Option-cases dec.reject) [
      | inr (why, e) ↦ rw (e, store_heartbeat) refl
      | inl e ↦
          let (live, a, _, _, _) =
            store_heartbeat-committed sha256 p db (heartbeat_writes p db dec.transitions)
              dec.directive (rw (e, store_heartbeat) refl) in
          absurd (ground (arith, live, a, o))
    ]

back_refused :
    (sha256 : Text → Text) (p : ReleaseParams) (db : Tables)
    → IsOver p.epoch db
    → return_lease sha256 p db ≡ rolled_back stale_epoch
unfolding return_lease
back_refused sha256 p db o = elim (Option-cases (store_release sha256 p db.store)) [
  | inl e ↦ rw (e, return_lease) refl
  | inr (st, e) ↦
      let (live, a, _) =
        return_lease-committed sha256 p db (release_writes db st) (rw (e, return_lease) refl) in
      absurd (ground (arith, live, a, o))
]

arm_active : (s : State) → (work_result_arm s).reject ≡ none → has_active_lease s ≡ true
unfolding work_result_arm has_active_lease
arm_active s h = ground arith

pub over-IsPowerless :
    (sha256 : Text → Text) (e : ℕ) (db : Tables) → IsOver e db → IsPowerless sha256 e db
unfolding has_active_lease
over-IsPowerless sha256 e db o = record {
  beat = λ p same. beat_refused sha256 p db (rw same o);
  back = λ p same. back_refused sha256 p db (rw same o);
  result = λ delay p db' r same h. elim (store_result-cases sha256 delay p db db' r h) [
    | inl kept ↦ kept
    | inr fresh ↦
        let (live, ok, _) = fresh_result-committed sha256 delay p db db' r fresh in
        absurd (ground (arith, live, same, o, arm_active db.store.job.state ok))
  ];
  review = λ p i db' r same h. elim (review_result-cases sha256 p i db db' r h) [
    | inl kept ↦ kept
    | inr fresh ↦
        let (live, at, _, _, _, _) = fresh_review-committed sha256 p i db db' r fresh in
        absurd (ground (arith, live, same, o, at))
  ];
}
