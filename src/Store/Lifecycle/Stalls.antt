-- ===== src/Store/Lifecycle/Stalls.antt =====
-- How internal/store counts the stalls of a build: no transaction takes one away.
use flowbee.Base.{
  ℕ, ◌≤◌, ◌≡◌, refl, inl, inr, Bool, not, ◌||◌, ◌==◌, List, [], ◌∷◌, arith, Bool-cases,
}
use flowbee.Base.Text.{Text}
use flowbee.Job.State.{State, liveness_evaluable}
use flowbee.Engine.Types.{Transition}
use flowbee.Store.Release.{ReleaseParams, apply_release, released_row, is_exhausted, exhausted_row}
use flowbee.Store.Return.{release_writes}
use flowbee.Store.Revoke.{apply_revoke, revoked_row}
use flowbee.Store.Tables.{Tables, Response, Timer, committed, append}
use flowbee.Store.Claim.{apply_claim, claimed_row}
use flowbee.Store.Review.{apply_review_claim, review_claimed_row}
use flowbee.Store.Heartbeat.{HeartbeatParams, record_heartbeat, beaten_row, heartbeat_writes}
use flowbee.Store.Result.{ResultParams, built_row, moved_on_row, finish_result, result_writes}
use flowbee.Store.Verdicts.{ReviewResultParams, ReviewInputs, reviewed_row, review_writes}
use flowbee.Store.Watch.{
  LivenessConfig, liveness_writes, arm_lease_liveness_timers, evaluate_liveness,
  fire_lease_deadline, fired_timer,
}
use flowbee.Store.Alarms.{fire_no_eligible_worker, alarmed_row, is_waiting}
use flowbee.Store.Lifecycle.Builds.{claim_ready_job-committed}
use flowbee.Store.Lifecycle.Beats.{store_heartbeat-committed}
use flowbee.Store.Lifecycle.Results.{store_result-cases, fresh_result-committed}
use flowbee.Store.Lifecycle.Returns.{return_lease-committed}
use flowbee.Store.Lifecycle.Judgements.{fresh_review-committed}
use flowbee.Store.Lifecycle.Reviews.{claim_review_job-committed, review_result-cases}
use flowbee.Store.Lifecycle.Steps.{
  Step, claims, arms, beats, returns, results, stalls, expires, marks, alarms, claims_review,
  reviews,
}

abbrev pub stalls_of : Tables → ℕ
stalls_of db = db.store.job.stall_revocations

watch_writes-stalls :
    (cfg : LivenessConfig) (db : Tables) (now : ℕ) (ts : List Transition)
    → stalls_of db ≤ stalls_of (liveness_writes cfg db now ts).0
unfolding liveness_writes apply_revoke revoked_row append
watch_writes-stalls cfg db now [] = omega arith
watch_writes-stalls cfg db now (t ∷ ts) = omega arith

watch-stalls :
    (sha256 : Text → Text) (cfg : LivenessConfig) (breaker : Bool) (now : ℕ) (db : Tables)
    → stalls_of db ≤ stalls_of (evaluate_liveness sha256 cfg breaker now db).0
unfolding evaluate_liveness
watch-stalls sha256 cfg breaker now db = elim (Bool-cases (liveness_evaluable db.store.job.state)) [
  | inr idle ↦ rw idle (omega arith)
  | inl held ↦ rw held (watch_writes-stalls cfg db now _)
]

deadline-stalls :
    (sha256 : Text → Text) (cfg : LivenessConfig) (breaker : Bool) (now : ℕ) (t : Timer)
    (db : Tables)
    → stalls_of db ≤ stalls_of (fire_lease_deadline sha256 cfg breaker now t db).0
unfolding fire_lease_deadline fired_timer
deadline-stalls sha256 cfg breaker now t db =
    elim (Bool-cases (
      not (db.store.job.lease_epoch == t.expected_epoch)
      || not (liveness_evaluable db.store.job.state))) [
        | inl stale ↦ rw stale (omega arith)
        | inr fires ↦ rw fires (watch-stalls sha256 cfg breaker now db)
      ]

alarm-stalls :
    (db : Tables) (t : Timer) (now : ℕ)
    → stalls_of (fire_no_eligible_worker t now db).0 ≡ stalls_of db
unfolding fire_no_eligible_worker fired_timer alarmed_row append
alarm-stalls db t now =
    elim (Bool-cases
      (not (db.store.job.lease_epoch == t.expected_epoch) || not (is_waiting db.store.job.state))) [
        | inl stale ↦ rw stale refl
        | inr fires ↦ rw fires refl
      ]

released-stalls :
    (db : Tables) (p : ReleaseParams) (to : State) (burns : Bool)
    → stalls_of db ≤ stalls_of (release_writes db (apply_release p db.store to burns))
unfolding release_writes apply_release released_row exhausted_row
released-stalls db p to burns = elim (Bool-cases (is_exhausted db.store.job burns)) [
  | inl e ↦ rw e (omega arith)
  | inr e ↦ rw e (omega arith)
]

beaten-stalls :
    (p : HeartbeatParams) (db : Tables) (ts : List Transition)
    → stalls_of db ≤ stalls_of (heartbeat_writes p db ts)
unfolding heartbeat_writes record_heartbeat beaten_row apply_revoke revoked_row append
beaten-stalls p db [] = omega arith
beaten-stalls p db (t ∷ ts) = omega arith

resulted-stalls :
    (delay : ℕ) (p : ResultParams) (db db' : Tables) (r : Response) (ts : List Transition)
    (final : State)
    → result_writes delay p db ts final ≡ committed (db', r)
    → stalls_of db' ≡ stalls_of db
unfolding result_writes finish_result built_row moved_on_row
resulted-stalls delay p db db' r ts final h = ground arith

reviewed-stalls :
    (p : ReviewResultParams) (i : ReviewInputs) (db : Tables) (ts : List Transition) (final : State)
    → stalls_of (review_writes p i db ts final) ≡ stalls_of db
unfolding review_writes reviewed_row moved_on_row
reviewed-stalls p i db ts final = ground arith

pub Step-stalls :
    (sha256 : Text → Text) {db db' : Tables} → Step sha256 db db' → stalls_of db ≤ stalls_of db'
unfolding arm_lease_liveness_timers apply_claim claimed_row apply_review_claim review_claimed_row
    append fired_timer
Step-stalls sha256 (claims p fleet l h) =
    let (_, _, _, _, _, e, _) = claim_ready_job-committed p _ _ fleet l h in rw e (omega arith)
Step-stalls sha256 (arms db cfg epoch now) = omega arith
Step-stalls sha256 (beats {db} p d h) =
    let (_, _, ts, _, e) = store_heartbeat-committed sha256 p _ _ d h in
    rw e (beaten-stalls p db ts)
Step-stalls sha256 (returns {db} p h) =
    let (_, _, e) = return_lease-committed sha256 p _ _ h in rw e (released-stalls db p _ _)
Step-stalls sha256 (results {db} {db'} delay p r h) =
    elim (store_result-cases sha256 delay p _ _ r h) [
      | inl e ↦ rw e (omega arith)
      | inr f ↦
          let (_, _, w) = fresh_result-committed sha256 delay p _ _ r f in
          ground (arith, resulted-stalls delay p db db' r _ _ w)
    ]
Step-stalls sha256 (stalls db cfg breaker now) = watch-stalls sha256 cfg breaker now db
Step-stalls sha256 (expires db cfg breaker now t) = deadline-stalls sha256 cfg breaker now t db
Step-stalls sha256 (marks db id) = omega arith
Step-stalls sha256 (alarms db t now) = ground (arith, alarm-stalls db t now)
Step-stalls sha256 (claims_review p fleet l h) =
    let (_, _, _, _, e, _) = claim_review_job-committed p _ _ fleet l h in rw e (omega arith)
Step-stalls sha256 (reviews {db} {db'} p i r h) = elim (review_result-cases sha256 p i _ _ r h) [
  | inl e ↦ rw e (omega arith)
  | inr f ↦
      let (_, _, t, _, e, _) = fresh_review-committed sha256 p i _ _ r f in
      rw e (ground (arith, reviewed-stalls p i db (t ∷ []) t.to))
]
