-- ===== src/Store/Requeue/Fences.antt =====
-- The operator's `RequeueJob` and `CancelJob` of internal/store/requeue.go against the worker of the job.
use flowbee.Base.{◌≡◌, subst, inl, inr, ◌⊎◌, ℕ, ◌≤◌, Bool, true, false, some, arith, Bool-cases}
use flowbee.Base.Text.{Text}
use flowbee.Job.State.{State, has_active_lease}
use flowbee.Store.Tables.{Tables, append}
use flowbee.Store.Requeue.{
  requeued_row, apply_requeue, requeue_job, cancelled_row, apply_cancel, cancel_job, is_closed,
}
use flowbee.Store.Lifecycle.Effects.{epoch_of}
use flowbee.Store.Lifecycle.Zombies.{IsOver, IsPowerless, over-IsPowerless}

requeue_job-IsOver :
    (force : Bool) (now e : ℕ) (db db' : Tables) (s : State)
    → e ≤ epoch_of db
    → requeue_job force now db ≡ some (db', s)
    → IsOver e db'
unfolding requeue_job apply_requeue requeued_row append
requeue_job-IsOver force now e db db' s le h =
    let same : apply_requeue now db ≡ db' = ground (arith, h) in
    subst (λ d. IsOver e d) same (inl (omega arith))

closed_idle : (s : State) → is_closed s ≡ true → has_active_lease s ≡ false
unfolding is_closed has_active_lease
closed_idle s h = ground (arith, h)

cancel_job-IsOver :
    (force : Bool) (now e : ℕ) (db db' : Tables) (s : State)
    → e ≤ epoch_of db
    → cancel_job force now db ≡ some (db', s)
    → IsOver e db'
unfolding cancel_job apply_cancel cancelled_row append
cancel_job-IsOver force now e db db' s le h = elim (Bool-cases (is_closed db.store.job.state)) [
  | inl closed ↦
      let same : db ≡ db' = ground (arith, rw closed at h) in
      let idle = closed_idle db.store.job.state closed in
      subst (λ d. IsOver e d) same (ground (arith, le, idle))
  | inr live ↦
      let same : apply_cancel now db ≡ db' = ground (arith, rw live at h) in
      subst (λ d. IsOver e d) same (inl (omega arith))
]

-- The operator fences the worker. After a requeue or a cancel that goes through, forced or not, no worker
-- with a lease of the job up to then can change anything: a heartbeat or a release with its epoch is
-- refused as stale, and a result or a review with it writes nothing.
pub requeue_job-IsPowerless :
    (sha256 : Text → Text) (force : Bool) (now e : ℕ) (db db' : Tables) (s : State)
    → e ≤ epoch_of db
    → (requeue_job force now db ≡ some (db', s)) ⊎ (cancel_job force now db ≡ some (db', s))
    → IsPowerless sha256 e db'
requeue_job-IsPowerless sha256 force now e db db' s le (inl h) =
    over-IsPowerless sha256 e db' (requeue_job-IsOver force now e db db' s le h)
requeue_job-IsPowerless sha256 force now e db db' s le (inr h) =
    over-IsPowerless sha256 e db' (cancel_job-IsOver force now e db db' s le h)
