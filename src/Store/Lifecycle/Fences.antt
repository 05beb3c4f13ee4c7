-- ===== src/Store/Lifecycle/Fences.antt =====
-- The effect of every step of internal/store on the lease of a build.
use flowbee.Base.{
  ◌≡◌, refl, sym, subst, inl, inr, Bool, true, not, ◌||◌, ◌==◌, List, [], ◌∷◌, none, ℕ, arith,
  Bool-cases, Option-cases,
}
use flowbee.Base.Text.{Text, bytes}
use flowbee.Job.State.{
  State, leased, building, review_pending, code_review, has_active_lease, liveness_evaluable,
}
use flowbee.Engine.Types.{Transition, move, moving}
use flowbee.Engine.Lease.{work_result_arm}
use flowbee.Engine.Review.{verdict_minted_move}
use flowbee.Store.Tables.{Tables, Timer, Response, committed, append}
use flowbee.Store.Result.{
  ResultParams, arm_no_eligible, built_row, moved_on_row, finish_result, result_writes, final_state,
  store_result,
}
use flowbee.Store.Watch.{
  LivenessConfig, arm_lease_liveness_timers, fire_lease_deadline, fired_timer,
}
use flowbee.Store.Alarms.{fire_no_eligible_worker, alarmed_row, is_waiting}
use flowbee.Store.Verdicts.{
  ReviewResultParams, ReviewInputs, judged_facts, reviewed_row, review_writes, review_result,
}
use flowbee.Store.Lifecycle.Soundness.{IsSound}
use flowbee.Store.Lifecycle.Beats.{store_heartbeat-committed}
use flowbee.Store.Lifecycle.Results.{store_result-cases, fresh_result-committed}
use flowbee.Store.Lifecycle.Returns.{return_lease-committed}
use flowbee.Store.Lifecycle.Judgements.{
  IsJudgement, accumulated, minted, bounced, parked, fresh_review-committed,
}
use flowbee.Store.Lifecycle.Reviews.{review_result-cases}
use flowbee.Store.Lifecycle.Effects.{Effect, keeps, ends, active, released-Effect}
use flowbee.Store.Lifecycle.Outcomes.{
  unchanged, claimed-Effect, review_claimed-Effect, beat_writes-Effect, watch-Effect, marked-Effect,
}
use flowbee.Store.Lifecycle.Steps.{
  Step, claims, arms, beats, returns, results, stalls, expires, marks, alarms, claims_review,
  reviews,
}

built-Effect :
    (delay : ℕ) (p : ResultParams) (db db' : Tables) (ts : List Transition) (r : Response)
    → active db ≡ true
    → result_writes delay p db ts review_pending ≡ committed (db', r)
    → Effect db db'
unfolding result_writes finish_result built_row moved_on_row has_active_lease
built-Effect delay p db db' ts r a h =
    elim (Option-cases
      (arm_no_eligible delay db.store.job.id db.store.job.lease_epoch p.now db.timers)) [
        | inl e ↦ absurd (ground arith)
        | inr (timers, e) ↦
            ends (bytes "completed") a (ground arith) (inl (ground arith)) (ground arith)
      ]

result_writes-Effect :
    (delay : ℕ) (p : ResultParams) (db db' : Tables) (r : Response) (at : State)
    → db.store.job.state ≡ at
    → (work_result_arm at).reject ≡ none
    → result_writes delay p db
        (work_result_arm at).transitions
        (final_state at (work_result_arm at).transitions)
      ≡ committed (db', r)
    → Effect db db'
unfolding result_writes work_result_arm final_state moving move finish_result built_row moved_on_row
    has_active_lease
result_writes-Effect delay p db db' r leased at ok h =
    built-Effect delay p db db' _ r (rw at refl) h
result_writes-Effect delay p db db' r building at ok h =
    built-Effect delay p db db' _ r (rw at refl) h
result_writes-Effect delay p db db' r _ at ok h = absurd (ground arith)

results-Effect :
    (sha256 : Text → Text) (delay : ℕ) (p : ResultParams) (db db' : Tables) (r : Response)
    → store_result sha256 delay p db ≡ committed (db', r)
    → Effect db db'
results-Effect sha256 delay p db db' r h = elim (store_result-cases sha256 delay p db db' r h) [
  | inl same ↦ subst (Effect db) (sym same) (unchanged db)
  | inr fresh ↦
      let (_, ok, writes) = fresh_result-committed sha256 delay p db db' r fresh in
      result_writes-Effect delay p db db' r db.store.job.state refl ok writes
]

judged-Effect :
    (p : ReviewResultParams) (i : ReviewInputs) (db : Tables) (t : Transition)
    → db.store.job.state ≡ code_review
    → IsJudgement (judged_facts db.store.job i) t
    → Effect db (review_writes p i db (t ∷ []) t.to)
unfolding review_writes reviewed_row moved_on_row has_active_lease move verdict_minted_move
judged-Effect p i db t at accumulated = ends (bytes "completed") (rw at refl) refl (inl refl) refl
judged-Effect p i db t at (minted v head base green) =
    ends (bytes "completed") (rw at refl) refl (inl refl) refl
judged-Effect p i db t at bounced = ends (bytes "completed") (rw at refl) refl (inl refl) refl
judged-Effect p i db t at parked = ends (bytes "completed") (rw at refl) refl (inl refl) refl

reviews-Effect :
    (sha256 : Text → Text) (p : ReviewResultParams) (i : ReviewInputs) (db db' : Tables)
    (r : Response)
    → review_result sha256 p i db ≡ committed (db', r)
    → Effect db db'
reviews-Effect sha256 p i db db' r h = elim (review_result-cases sha256 p i db db' r h) [
  | inl same ↦ subst (Effect db) (sym same) (unchanged db)
  | inr fresh ↦
      let (_, at, t, j, e, _) = fresh_review-committed sha256 p i db db' r fresh in
      subst (Effect db) (sym e) (judged-Effect p i db t at j)
]

alarm-Effect : (db : Tables) (t : Timer) (now : ℕ) → Effect db (fire_no_eligible_worker t now db).0
unfolding fire_no_eligible_worker fired_timer alarmed_row append
alarm-Effect db t now =
    elim (Bool-cases
      (not (db.store.job.lease_epoch == t.expected_epoch) || not (is_waiting db.store.job.state))) [
        | inl stale ↦ rw stale (keeps refl refl refl)
        | inr fires ↦ rw fires (keeps refl refl refl)
      ]

deadline-Effect :
    (sha256 : Text → Text) (cfg : LivenessConfig) (breaker : Bool) (now : ℕ) (t : Timer)
    (db : Tables)
    → IsSound db.store
    → Effect db (fire_lease_deadline sha256 cfg breaker now t db).0
unfolding fire_lease_deadline
deadline-Effect sha256 cfg breaker now t db s =
    elim (Bool-cases (
      not (db.store.job.lease_epoch == t.expected_epoch)
      || not (liveness_evaluable db.store.job.state))) [
        | inl stale ↦ rw stale (marked-Effect db db t.id (unchanged db))
        | inr fires ↦ rw fires (marked-Effect db _ t.id (watch-Effect sha256 cfg breaker now db s))
      ]

pub Step-Effect :
    (sha256 : Text → Text) {db db' : Tables} → IsSound db.store → Step sha256 db db' → Effect db db'
unfolding arm_lease_liveness_timers
Step-Effect sha256 s (claims p fleet l h) = claimed-Effect p _ _ fleet l h
Step-Effect sha256 s (arms db cfg epoch now) = keeps refl refl refl
Step-Effect sha256 s (beats p d h) =
    let (_, a, ts, r, e) = store_heartbeat-committed sha256 p _ _ d h in
    subst (Effect _) (sym e) (beat_writes-Effect p _ ts s a r)
Step-Effect sha256 s (returns p h) =
    let (_, a, e) = return_lease-committed sha256 p _ _ h in
    subst (Effect _) (sym e) (released-Effect _ p _ s a)
Step-Effect sha256 s (results delay p r h) = results-Effect sha256 delay p _ _ r h
Step-Effect sha256 s (stalls db cfg breaker now) = watch-Effect sha256 cfg breaker now db s
Step-Effect sha256 s (expires db cfg breaker now t) = deadline-Effect sha256 cfg breaker now t db s
Step-Effect sha256 s (marks db id) = marked-Effect db db id (unchanged db)
Step-Effect sha256 s (alarms db t now) = alarm-Effect db t now
Step-Effect sha256 s (claims_review p fleet l h) = review_claimed-Effect p _ _ fleet l h
Step-Effect sha256 s (reviews p i r h) = reviews-Effect sha256 p i _ _ r h
