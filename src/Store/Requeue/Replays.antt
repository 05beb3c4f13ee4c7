-- ===== src/Store/Requeue/Replays.antt =====
-- The row of a requeued or cancelled job of internal/store/requeue.go against the fold of its events.
use flowbee.Base.{◌≡◌, ◌↔◌, refl, ap, subst, sym, ◌∙◌, inl, inr, ◌⊎◌, ℕ, Bool, some, [], arith}
use flowbee.Base.Text.{is_empty}
use flowbee.Job.State.{State, build, spec}
use flowbee.Job.Record.{Job}
use flowbee.Ledger.Event.{zero_payload}
use flowbee.Ledger.Fold.{
  apply_event, fold, fold_kind, sync_notes, sync_gate, sync_caps, sync_role, is_human_gate,
}
use flowbee.Ledger.Cases.Build.{state_changed_case, reset_counters}
use flowbee.Ledger.Cases.Shared.{is_ready}
use flowbee.Store.Row.{JobStore, logged}
use flowbee.Store.Row.Replay.{IsReplayed, ReadsLogged, append-IsReplayed, fold-append}
use flowbee.Store.Tables.{Tables, append}
use flowbee.Store.Requeue.{
  requeue_state, requeue_role, requeued_event, requeued_row, apply_requeue, requeue_job,
}

-- No worker is bound to the job.
pub record IsUnbound (j : Job) : Type 0 where
  pub no_lease : j.lease_id ≡ []
  pub no_identity : j.bound_identity ≡ []
  pub no_family : j.bound_model_family ≡ []

requeued-logged :
    (now : ℕ) (j : Job)
    → (j.kind ≡ build) ⊎ (j.kind ≡ spec)
    → IsUnbound j
    → logged (requeued_row now j) ≡ logged (apply_event j (requeued_event now j))
unfolding logged requeued_row requeued_event apply_event fold_kind state_changed_case reset_counters
    sync_notes sync_gate sync_caps sync_role is_human_gate zero_payload is_empty requeue_state
    requeue_role is_ready
requeued-logged now j (inl k) u = rw (k, u.no_lease, u.no_identity, u.no_family) refl
requeued-logged now j (inr k) u = rw (k, u.no_lease, u.no_identity, u.no_family) refl

requeued-ReadsLogged :
    (now : ℕ) (j : Job) → ReadsLogged (fold_kind (requeued_event now j).kind (requeued_event now j))
unfolding logged requeued_event fold_kind state_changed_case reset_counters zero_payload
requeued-ReadsLogged now j i = refl

-- The event of a requeue leaves the lease of the projection alone.
keeps_lease :
    (now : ℕ) (j i : Job)
    → (j.kind ≡ build) ⊎ (j.kind ≡ spec)
    → i.kind ≡ j.kind
    → ((apply_event i (requeued_event now j)).lease_id ≡ i.lease_id)
      × ((apply_event i (requeued_event now j)).bound_identity ≡ i.bound_identity)
      × ((apply_event i (requeued_event now j)).bound_model_family ≡ i.bound_model_family)
unfolding requeued_event apply_event fold_kind state_changed_case reset_counters sync_notes
    sync_gate sync_caps sync_role is_human_gate zero_payload requeue_state
keeps_lease now j i (inl k) same = rw (same, k) (refl, refl, refl)
keeps_lease now j i (inr k) same = rw (same, k) (refl, refl, refl)

-- Nor does it touch the aging clock of the projection.
keeps_clock :
    (now : ℕ) (j i : Job)
    → (j.kind ≡ build) ⊎ (j.kind ≡ spec)
    → i.kind ≡ j.kind
    → (apply_event i (requeued_event now j)).enqueued_at ≡ i.enqueued_at
unfolding requeued_event apply_event fold_kind state_changed_case reset_counters sync_notes
    sync_gate sync_caps sync_role is_human_gate zero_payload requeue_state
keeps_clock now j i (inl k) same = rw (same, k) refl
keeps_clock now j i (inr k) same = rw (same, k) refl

bound_alike : (i j : Job) → logged i ≡ logged j → IsUnbound i → IsUnbound j
unfolding logged
bound_alike i j h u = record {
  no_lease = sym (ap (λ r. r.lease_id) h) ∙ u.no_lease;
  no_identity = sym (ap (λ r. r.bound_identity) h) ∙ u.no_identity;
  no_family = sym (ap (λ r. r.bound_model_family) h) ∙ u.no_family;
}

IsReplayed-IsUnbound :
    (now : ℕ) (st : JobStore)
    → (st.job.kind ≡ build) ⊎ (st.job.kind ≡ spec)
    → IsReplayed st
    → IsReplayed (append (requeued_row now st.job) (requeued_event now st.job) st)
    → IsUnbound st.job
unfolding append requeued_row logged
IsReplayed-IsUnbound now st k before after =
    let e = requeued_event now st.job in
    let (lease, identity, family) =
      keeps_lease now st.job (fold st.events) k (sym (ap (λ r. r.kind) before)) in
    let all = after ∙ ap logged (fold-append st.events e) in
    bound_alike (fold st.events) st.job (sym before) (record {
      no_lease = sym lease ∙ sym (ap (λ r. r.lease_id) all);
      no_identity = sym identity ∙ sym (ap (λ r. r.bound_identity) all);
      no_family = sym family ∙ sym (ap (λ r. r.bound_model_family) all);
    })

-- The row and the replay of the events agree in the columns that the events carry, and the row's aging
-- clock is `now` while the requeue left that of the replay where it was.
abbrev pub Requeued : ℕ → Tables → Tables → Type 0
Requeued now db db' =
    (IsReplayed db'.store ↔ IsUnbound db.store.job)
    × (db'.store.job.enqueued_at ≡ now)
    × ((fold db'.store.events).enqueued_at ≡ (fold db.store.events).enqueued_at)

-- A requeue keeps the row at its events, the aging clock aside, exactly when no worker was bound. The
-- comparison leaves out the stage, the aging clock, the lens, the review notes and the columns that
-- only an insert sets. For a build or a spec whose row agrees with the replay of its events in the
-- other columns, the row that an operator's requeue leaves agrees in them with the replay of the
-- events with the requeue's one if and only if the job had no lease id and no bound identity and
-- family: the row drops them, and the fold of the event does not. In no case does the fold restart the
-- aging clock, which the row sets to the time of the requeue.
pub requeue_job_replays_iff :
    (force : Bool) (now : ℕ) (db db' : Tables) (s : State)
    → (db.store.job.kind ≡ build) ⊎ (db.store.job.kind ≡ spec)
    → IsReplayed db.store
    → requeue_job force now db ≡ some (db', s)
    → Requeued now db db'
unfolding requeue_job apply_requeue append requeued_row logged
requeue_job_replays_iff force now db db' s k before h =
    let e : apply_requeue now db ≡ db' = ground (arith, h) in
    let event = requeued_event now db.store.job in
    subst (Requeued now db) e (
      (
        IsReplayed-IsUnbound now db.store k before,
        λ u.
            append-IsReplayed db.store event (requeued_row now db.store.job)
              (requeued-ReadsLogged now db.store.job) before (requeued-logged now db.store.job k u),
      ),
      refl,
      ap (λ j. j.enqueued_at) (fold-append db.store.events event)
          ∙ keeps_clock now db.store.job (fold db.store.events) k (sym (ap (λ r. r.kind) before)),
    )
