-- ===== src/Store/Lifecycle/Steps.antt =====
-- The transactions of internal/store on one build as the steps of a relation, and what holds after any
-- number of them, in any order.
use flowbee.Base.{◌≡◌, refl, ℕ, Bool, Option, inl, inr, Bool-cases, not, ◌||◌, ◌==◌}
use flowbee.Base.Text.{Text}
use flowbee.Engine.Types.{Directive}
use flowbee.Ledger.Event.{zero_payload}
use flowbee.Ledger.Fold.{fold_kind}
use flowbee.Job.State.{liveness_evaluable}
use flowbee.Store.Release.{ReleaseParams}
use flowbee.Store.Row.{logged}
use flowbee.Store.Row.Replay.{IsReplayed, replayed-IsConsistent}
use flowbee.Store.Tables.{Tables, Timer, Response, committed}
use flowbee.Store.Slots.{Fleet}
use flowbee.Store.Claim.{ClaimParams, Lease, claim_ready_job}
use flowbee.Store.Heartbeat.{HeartbeatParams, store_heartbeat}
use flowbee.Store.Result.{ResultParams, store_result}
use flowbee.Store.Return.{return_lease}
use flowbee.Store.Watch.{
  fired_timer, LivenessConfig, arm_lease_liveness_timers, evaluate_liveness, fire_lease_deadline,
}
use flowbee.Store.Alarms.{fire_no_eligible_worker, alarm_event, alarmed_row, is_waiting}
use flowbee.Store.Review.{ClaimReviewParams, claim_review_job}
use flowbee.Store.Verdicts.{ReviewResultParams, ReviewInputs, review_result}
use flowbee.Store.Lifecycle.Soundness.{IsSound, append-IsSound, settled-logged}
use flowbee.Store.Lifecycle.Builds.{claim_ready_job-IsSound}
use flowbee.Store.Lifecycle.Beats.{store_heartbeat-IsSound, evaluate_liveness-IsSound}
use flowbee.Store.Lifecycle.Results.{store_result-IsSound}
use flowbee.Store.Lifecycle.Returns.{return_lease-IsSound}
use flowbee.Store.Lifecycle.Reviews.{claim_review_job-IsSound, review_result-IsSound}

module _ (sha256 : Text → Text) where
  -- A committed transaction. One that is rolled back leaves the tables as they are. A deadline that fires
  -- is also there in its parts, the evaluation and the mark of its timer, which the source commits on
  -- their own.
  pub data Step : Tables → Tables → Type 0 where
    claims :
        {db db' : Tables} (p : ClaimParams) (fleet : Fleet) (l : Lease)
        → claim_ready_job p db fleet ≡ committed (db', l)
        → Step db db'
    arms :
        (db : Tables) (cfg : LivenessConfig) (epoch now : ℕ)
        → Step db (arm_lease_liveness_timers cfg epoch now db)
    beats :
        {db db' : Tables} (p : HeartbeatParams) (d : Option Directive)
        → store_heartbeat sha256 p db ≡ committed (db', d)
        → Step db db'
    returns :
        {db db' : Tables} (p : ReleaseParams)
        → return_lease sha256 p db ≡ committed db'
        → Step db db'
    results :
        {db db' : Tables} (delay : ℕ) (p : ResultParams) (r : Response)
        → store_result sha256 delay p db ≡ committed (db', r)
        → Step db db'
    stalls :
        (db : Tables) (cfg : LivenessConfig) (breaker : Bool) (now : ℕ)
        → Step db (evaluate_liveness sha256 cfg breaker now db).0
    expires :
        (db : Tables) (cfg : LivenessConfig) (breaker : Bool) (now : ℕ) (t : Timer)
        → Step db (fire_lease_deadline sha256 cfg breaker now t db).0
    marks : (db : Tables) (id : Text) → Step db (fired_timer id db)
    alarms : (db : Tables) (t : Timer) (now : ℕ) → Step db (fire_no_eligible_worker t now db).0
    claims_review :
        {db db' : Tables} (p : ClaimReviewParams) (fleet : Fleet) (l : Lease)
        → claim_review_job p db fleet ≡ committed (db', l)
        → Step db db'
    reviews :
        {db db' : Tables} (p : ReviewResultParams) (i : ReviewInputs) (r : Response)
        → review_result sha256 p i db ≡ committed (db', r)
        → Step db db'

  pub data Reach (db : Tables) : Tables → Type 0 where
    here : Reach db db
    next : {db' db'' : Tables} → Reach db db' → Step db' db'' → Reach db db''

alarm-IsSound :
    (t : Timer) (now : ℕ) (db : Tables)
    → IsSound db.store
    → IsSound (fire_no_eligible_worker t now db).0.store
unfolding fire_no_eligible_worker fired_timer alarmed_row alarm_event fold_kind zero_payload logged
alarm-IsSound t now db s =
    elim (Bool-cases
      (not (db.store.job.lease_epoch == t.expected_epoch) || not (is_waiting db.store.job.state))) [
        | inl stale ↦ rw stale s
        | inr fires ↦ rw fires (
            append-IsSound db.store (alarmed_row db.store.job) (alarm_event now db.store.job) s
              (λ j. refl)
              (settled-logged db.store.job db.store.job (alarmed_row db.store.job)
                (alarm_event now db.store.job) refl (refl, refl, refl)
                (replayed-IsConsistent db.store s.replayed) refl)
              s.builds s.placed s.worked s.unjudged refl)
      ]

deadline-IsSound :
    (sha256 : Text → Text) (cfg : LivenessConfig) (breaker : Bool) (now : ℕ) (t : Timer)
    (db : Tables)
    → IsSound db.store
    → IsSound (fire_lease_deadline sha256 cfg breaker now t db).0.store
unfolding fire_lease_deadline fired_timer
deadline-IsSound sha256 cfg breaker now t db s =
    elim (Bool-cases (
      not (db.store.job.lease_epoch == t.expected_epoch)
      || not (liveness_evaluable db.store.job.state))) [
        | inl stale ↦ rw stale s
        | inr fires ↦ rw fires (evaluate_liveness-IsSound sha256 cfg breaker now db s)
      ]

pub Step-IsSound :
    (sha256 : Text → Text) {db db' : Tables}
    → Step sha256 db db'
    → IsSound db.store
    → IsSound db'.store
unfolding arm_lease_liveness_timers fired_timer
Step-IsSound sha256 (claims p fleet l h) s = claim_ready_job-IsSound p _ _ fleet l h s
Step-IsSound sha256 (arms db cfg epoch now) s = s
Step-IsSound sha256 (beats p d h) s = store_heartbeat-IsSound sha256 p _ _ d h s
Step-IsSound sha256 (returns p h) s = return_lease-IsSound sha256 p _ _ h s
Step-IsSound sha256 (results delay p r h) s = store_result-IsSound sha256 delay p _ _ r h s
Step-IsSound sha256 (stalls db cfg breaker now) s =
    evaluate_liveness-IsSound sha256 cfg breaker now db s
Step-IsSound sha256 (expires db cfg breaker now t) s =
    deadline-IsSound sha256 cfg breaker now t db s
Step-IsSound sha256 (marks db id) s = s
Step-IsSound sha256 (alarms db t now) s = alarm-IsSound t now db s
Step-IsSound sha256 (claims_review p fleet l h) s = claim_review_job-IsSound p _ _ fleet l h s
Step-IsSound sha256 (reviews p i r h) s = review_result-IsSound sha256 p i _ _ r h s

-- The row is the replay of its events, whatever happens to a build. After any sequence of claims,
-- heartbeats, results, releases, reviews, timers and kills that starts at a sound build, the row and
-- the fold of the events agree on every column but the stage, the aging clock, the lens, the review
-- notes and those that only an insert sets, and the build is sound again.
pub Reach-IsSound :
    (sha256 : Text → Text) (db db' : Tables)
    → IsSound db.store
    → Reach sha256 db db'
    → IsReplayed db'.store × IsSound db'.store
Reach-IsSound sha256 db db' s here = (s.replayed, s)
Reach-IsSound sha256 db db' s (next {db''} r st) =
    let (_, t) = Reach-IsSound sha256 db _ s r in
    let u = Step-IsSound sha256 st t in (u.replayed, u)
