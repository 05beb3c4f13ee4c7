-- ===== src/Store/Lifecycle/Repeats.antt =====
-- What internal/store answers to a result or a review that is sent again.
use flowbee.Base.{
  ℕ, ◌≡◌, refl, sym, ap, ◌∙◌, subst, ◌⊎◌, inl, inr, Bool, false, not, ◌||◌, ◌==◌, List, [], ◌∷◌,
  some, arith, Bool-cases, Option-cases,
}
use flowbee.Base.Text.{Text, is_empty}
use flowbee.Job.State.{liveness_evaluable}
use flowbee.Engine.Types.{Transition}
use flowbee.Store.Return.{release_writes}
use flowbee.Store.Revoke.{apply_revoke}
use flowbee.Store.Tables.{Tables, Response, Timer, committed}
use flowbee.Store.Claim.{apply_claim}
use flowbee.Store.Review.{apply_review_claim}
use flowbee.Store.Heartbeat.{HeartbeatParams, record_heartbeat, heartbeat_writes}
use flowbee.Store.Result.{ResultParams, remember, cached_response, store_result}
use flowbee.Store.Verdicts.{ReviewResultParams, ReviewInputs, review_result}
use flowbee.Store.Watch.{
  LivenessConfig, liveness_writes, arm_lease_liveness_timers, evaluate_liveness,
  fire_lease_deadline, fired_timer,
}
use flowbee.Store.Alarms.{fire_no_eligible_worker, is_waiting}
use flowbee.Store.Lifecycle.Builds.{claim_ready_job-committed}
use flowbee.Store.Lifecycle.Beats.{store_heartbeat-committed}
use flowbee.Store.Lifecycle.Returns.{return_lease-committed}
use flowbee.Store.Lifecycle.Reviews.{claim_review_job-committed}
use flowbee.Store.Lifecycle.Responses.{
  Responses, Adds, remember-Adds, cached-snoc, cached-remember, store_result-responses,
  review_result-responses, fresh_result-responses, fresh_review-responses,
}
use flowbee.Store.Lifecycle.Steps.{
  Step, claims, arms, beats, returns, results, stalls, expires, marks, alarms, claims_review,
  reviews, Reach, here, next,
}

watch_writes-responses :
    (cfg : LivenessConfig) (db : Tables) (now : ℕ) (ts : List Transition)
    → (liveness_writes cfg db now ts).0.responses ≡ db.responses
unfolding liveness_writes apply_revoke
watch_writes-responses cfg db now [] = refl
watch_writes-responses cfg db now (t ∷ ts) = refl

beat_writes-responses :
    (p : HeartbeatParams) (db : Tables) (ts : List Transition)
    → (heartbeat_writes p db ts).responses ≡ db.responses
unfolding heartbeat_writes record_heartbeat apply_revoke
beat_writes-responses p db [] = refl
beat_writes-responses p db (t ∷ ts) = refl

watch-responses :
    (sha256 : Text → Text) (cfg : LivenessConfig) (breaker : Bool) (now : ℕ) (db : Tables)
    → (evaluate_liveness sha256 cfg breaker now db).0.responses ≡ db.responses
unfolding evaluate_liveness
watch-responses sha256 cfg breaker now db =
    elim (Bool-cases (liveness_evaluable db.store.job.state)) [
      | inr idle ↦ rw idle refl
      | inl held ↦ rw held (watch_writes-responses cfg db now _)
    ]

deadline-responses :
    (sha256 : Text → Text) (cfg : LivenessConfig) (breaker : Bool) (now : ℕ) (t : Timer)
    (db : Tables)
    → (fire_lease_deadline sha256 cfg breaker now t db).0.responses ≡ db.responses
unfolding fire_lease_deadline fired_timer
deadline-responses sha256 cfg breaker now t db =
    elim (Bool-cases (
      not (db.store.job.lease_epoch == t.expected_epoch)
      || not (liveness_evaluable db.store.job.state))) [
        | inl stale ↦ rw stale refl
        | inr fires ↦ rw fires (watch-responses sha256 cfg breaker now db)
      ]

alarm-responses :
    (db : Tables) (t : Timer) (now : ℕ)
    → (fire_no_eligible_worker t now db).0.responses ≡ db.responses
unfolding fire_no_eligible_worker fired_timer
alarm-responses db t now =
    elim (Bool-cases
      (not (db.store.job.lease_epoch == t.expected_epoch) || not (is_waiting db.store.job.state))) [
        | inl stale ↦ rw stale refl
        | inr fires ↦ rw fires refl
      ]

adds :
    (key : Text) (r : Response) (rs rs' : Responses)
    → (rs' ≡ rs) ⊎ (rs' ≡ remember key r rs)
    → Adds rs rs'
adds key r rs rs' (inl same) = inl same
adds key r rs rs' (inr more) = subst (Adds rs) (sym more) (remember-Adds key r rs)

Step-Adds :
    (sha256 : Text → Text) {db db' : Tables} → Step sha256 db db' → Adds db.responses db'.responses
unfolding arm_lease_liveness_timers apply_claim apply_review_claim release_writes fired_timer
Step-Adds sha256 (claims p fleet l h) =
    let (_, _, _, _, _, e, _) = claim_ready_job-committed p _ _ fleet l h in
    inl (ap (λ d. d.responses) e)
Step-Adds sha256 (arms db cfg epoch now) = inl refl
Step-Adds sha256 (beats p d h) =
    let (_, _, ts, _, e) = store_heartbeat-committed sha256 p _ _ d h in
    inl (ap (λ d. d.responses) e ∙ beat_writes-responses p _ ts)
Step-Adds sha256 (returns p h) =
    let (_, _, e) = return_lease-committed sha256 p _ _ h in inl (ap (λ d. d.responses) e)
Step-Adds sha256 (results delay p r h) =
    adds p.idempotency_key r _ _ (store_result-responses sha256 delay p _ _ r h)
Step-Adds sha256 (stalls db cfg breaker now) = inl (watch-responses sha256 cfg breaker now db)
Step-Adds sha256 (expires db cfg breaker now t) =
    inl (deadline-responses sha256 cfg breaker now t db)
Step-Adds sha256 (marks db id) = inl refl
Step-Adds sha256 (alarms db t now) = inl (alarm-responses db t now)
Step-Adds sha256 (claims_review p fleet l h) =
    let (_, _, _, _, e, _) = claim_review_job-committed p _ _ fleet l h in
    inl (ap (λ d. d.responses) e)
Step-Adds sha256 (reviews p i r h) =
    adds p.idempotency_key r _ _ (review_result-responses sha256 p i _ _ r h)

Adds-cached :
    (key : Text) (r : Response) (rs rs' : Responses)
    → Adds rs rs'
    → cached_response key rs ≡ some r
    → cached_response key rs' ≡ some r
Adds-cached key r rs rs' (inl same) h = rw same h
Adds-cached key r rs rs' (inr (k, v, more)) h = rw more (cached-snoc key k r v rs h)

Reach-cached :
    (sha256 : Text → Text) (key : Text) (r : Response) (db db' : Tables)
    → cached_response key db.responses ≡ some r
    → Reach sha256 db db'
    → cached_response key db'.responses ≡ some r
Reach-cached sha256 key r db db' h here = h
Reach-cached sha256 key r db db' h (next more st) =
    Adds-cached key r _ _ (Step-Adds sha256 st) (Reach-cached sha256 key r db _ h more)

-- Whatever is sent under the key is answered with the response, and nothing is written.
pub record IsAnswered (sha256 : Text → Text) (key : Text) (r : Response) (db : Tables)
    : Type 0 where
  pub result :
      (delay : ℕ) (q : ResultParams)
      → q.idempotency_key ≡ key
      → store_result sha256 delay q db ≡ committed (db, r)
  pub review :
      (q : ReviewResultParams) (i : ReviewInputs)
      → q.idempotency_key ≡ key
      → review_result sha256 q i db ≡ committed (db, r)

cached-IsAnswered :
    (sha256 : Text → Text) (key : Text) (r : Response) (db : Tables)
    → is_empty key ≡ false
    → cached_response key db.responses ≡ some r
    → IsAnswered sha256 key r db
unfolding store_result review_result
cached-IsAnswered sha256 key r db e h = record {
  result = λ delay q same. rw (same, e, h) refl;
  review = λ q i same. rw (same, e, h) refl;
}

store_result-cached :
    (sha256 : Text → Text) (delay : ℕ) (p : ResultParams) (db db' : Tables) (r : Response)
    → store_result sha256 delay p db ≡ committed (db', r)
    → is_empty p.idempotency_key ≡ false
    → cached_response p.idempotency_key db'.responses ≡ some r
unfolding store_result
store_result-cached sha256 delay p db db' r h e =
    elim (Option-cases (cached_response p.idempotency_key db.responses)) [
      | inl new ↦
          subst (λ rs. cached_response p.idempotency_key rs ≡ some r)
            (sym (fresh_result-responses sha256 delay p db db' r (rw (e, new) at h)))
            (cached-remember p.idempotency_key r db.responses e new)
      | inr (c, old) ↦ ground arith
    ]

review_result-cached :
    (sha256 : Text → Text) (p : ReviewResultParams) (i : ReviewInputs) (db db' : Tables)
    (r : Response)
    → review_result sha256 p i db ≡ committed (db', r)
    → is_empty p.idempotency_key ≡ false
    → cached_response p.idempotency_key db'.responses ≡ some r
unfolding review_result
review_result-cached sha256 p i db db' r h e =
    elim (Option-cases (cached_response p.idempotency_key db.responses)) [
      | inl new ↦
          subst (λ rs. cached_response p.idempotency_key rs ≡ some r)
            (sym (fresh_review-responses sha256 p i db db' r (rw (e, new) at h)))
            (cached-remember p.idempotency_key r db.responses e new)
      | inr (c, old) ↦ ground arith
    ]

-- A result is applied once. After a result with a key has been answered, then after any further
-- transactions whatever is sent under that key, be it a result or a review, gets the same response
-- again and writes nothing.
pub store_result_repeats :
    (sha256 : Text → Text) (delay : ℕ) (p : ResultParams) (db db' db'' : Tables) (r : Response)
    → store_result sha256 delay p db ≡ committed (db', r)
    → is_empty p.idempotency_key ≡ false
    → Reach sha256 db' db''
    → IsAnswered sha256 p.idempotency_key r db''
store_result_repeats sha256 delay p db db' db'' r h e more =
    cached-IsAnswered sha256 p.idempotency_key r db'' e (
      Reach-cached sha256 p.idempotency_key r db' db''
        (store_result-cached sha256 delay p db db' r h e) more)

-- And so is a review.
pub review_result_repeats :
    (sha256 : Text → Text) (p : ReviewResultParams) (i : ReviewInputs) (db db' db'' : Tables)
    (r : Response)
    → review_result sha256 p i db ≡ committed (db', r)
    → is_empty p.idempotency_key ≡ false
    → Reach sha256 db' db''
    → IsAnswered sha256 p.idempotency_key r db''
review_result_repeats sha256 p i db db' db'' r h e more =
    cached-IsAnswered sha256 p.idempotency_key r db'' e (
      Reach-cached sha256 p.idempotency_key r db' db''
        (review_result-cached sha256 p i db db' r h e) more)
