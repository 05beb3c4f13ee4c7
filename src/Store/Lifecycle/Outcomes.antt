-- ===== src/Store/Lifecycle/Outcomes.antt =====
-- The effects of claims, heartbeats and kills of internal/store on the lease of a build.
use flowbee.Base.{◌≡◌, refl, sym, subst, inl, inr, Bool, true, List, [], ◌∷◌, ℕ, Bool-cases}
use flowbee.Base.Text.{Text}
use flowbee.Job.State.{has_active_lease, liveness_evaluable}
use flowbee.Engine.{decide}
use flowbee.Engine.Types.{Transition}
use flowbee.Store.Release.{release_snapshot}
use flowbee.Store.Tables.{Tables, committed, append}
use flowbee.Store.Slots.{Fleet}
use flowbee.Store.Claim.{
  ClaimParams, Lease, apply_claim, claimed_row, claimed_lease, claim_ready_job,
}
use flowbee.Store.Heartbeat.{HeartbeatParams, record_heartbeat, beaten_row, heartbeat_writes}
use flowbee.Store.Watch.{
  LivenessConfig, liveness_report, escalation_of, liveness_writes, evaluate_liveness, fired_timer,
}
use flowbee.Store.Review.{
  ClaimReviewParams, apply_review_claim, review_claimed_row, review_lease, claim_review_job,
}
use flowbee.Store.Lifecycle.Soundness.{IsSound}
use flowbee.Store.Lifecycle.Builds.{may_claim-ready, claim_ready_job-committed}
use flowbee.Store.Lifecycle.Beats.{Revokes, decide_liveness-Revokes, evaluable_active}
use flowbee.Store.Lifecycle.Reviews.{claim_review_job-committed}
use flowbee.Store.Lifecycle.Effects.{
  Effect, keeps, grants, ends, active, insert_lease-some, revoked-Effect,
}

pub unchanged : (db : Tables) → Effect db db
unchanged db = keeps refl refl refl

pub claimed-Effect :
    (p : ClaimParams) (db db' : Tables) (fleet : Fleet) (l : Lease)
    → claim_ready_job p db fleet ≡ committed (db', l)
    → Effect db db'
unfolding apply_claim claimed_row claimed_lease append has_active_lease
claimed-Effect p db db' fleet l h =
    let (account, leases, may, _, put, e, _) = claim_ready_job-committed p db db' fleet l h in
    let at = may_claim-ready p db fleet may in
    subst (Effect db) (sym e) (
      grants (claimed_lease p db.store.job) (rw at refl) refl refl refl refl
        (insert_lease-some (claimed_lease p db.store.job) db.leases leases put))

pub review_claimed-Effect :
    (p : ClaimReviewParams) (db db' : Tables) (fleet : Fleet) (l : Lease)
    → claim_review_job p db fleet ≡ committed (db', l)
    → Effect db db'
unfolding apply_review_claim review_claimed_row review_lease append has_active_lease
review_claimed-Effect p db db' fleet l h =
    let (leases, at, _, put, e, _) = claim_review_job-committed p db db' fleet l h in
    subst (Effect db) (sym e) (
      grants (review_lease p db.store.job) (rw at refl) refl refl refl refl
        (insert_lease-some (review_lease p db.store.job) db.leases leases put))

pub beat_writes-Effect :
    (p : HeartbeatParams) (db : Tables) (ts : List Transition)
    → IsSound db.store
    → active db ≡ true
    → Revokes db.store.job.state ts
    → Effect db (heartbeat_writes p db ts)
unfolding heartbeat_writes record_heartbeat beaten_row append
beat_writes-Effect p db [] s a r = keeps refl refl refl
beat_writes-Effect p db (t ∷ ts) s a r = revoked-Effect db t ts p.now [] s a r

watch_writes-Effect :
    (cfg : LivenessConfig) (db : Tables) (now : ℕ) (ts : List Transition)
    → IsSound db.store
    → active db ≡ true
    → Revokes db.store.job.state ts
    → Effect db (liveness_writes cfg db now ts).0
unfolding liveness_writes
watch_writes-Effect cfg db now [] s a r = unchanged db
watch_writes-Effect cfg db now (t ∷ ts) s a r =
    revoked-Effect db t ts now (escalation_of cfg db.store.job t) s a r

pub watch-Effect :
    (sha256 : Text → Text) (cfg : LivenessConfig) (breaker : Bool) (now : ℕ) (db : Tables)
    → IsSound db.store
    → Effect db (evaluate_liveness sha256 cfg breaker now db).0
unfolding evaluate_liveness decide liveness_report release_snapshot
watch-Effect sha256 cfg breaker now db s =
    elim (Bool-cases (liveness_evaluable db.store.job.state)) [
      | inr idle ↦ rw idle (unchanged db)
      | inl held ↦ rw held (
          watch_writes-Effect cfg db now _ s (evaluable_active db.store.job.state held)
            (decide_liveness-Revokes _ _))
    ]

-- Marking a timer leaves the effect as it is.
pub marked-Effect : (db db' : Tables) (id : Text) → Effect db db' → Effect db (fired_timer id db')
unfolding fired_timer
marked-Effect db db' id (keeps e st l) = keeps e st l
marked-Effect db db' id (grants r a b e f n l) = grants r a b e f n l
marked-Effect db db' id (ends why a b e l) = ends why a b e l
