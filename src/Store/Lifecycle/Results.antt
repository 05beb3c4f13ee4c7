-- ===== src/Store/Lifecycle/Results.antt =====
-- The result of internal/store/queries.go preserves the soundness of a build.
use flowbee.Base.{
  ◌≡◌, refl, sym, subst, ◌⊎◌, inl, inr, true, false, List, [], ◌∷◌, none, ℕ, ◌+◌, ◌==◌, arith,
  Bool-cases, Option-cases,
}
use mathlib.Core.List.{append_assoc}
use flowbee.Base.Text.{Text, is_empty}
use flowbee.Job.State.{State, state_text, leased, building, review_pending}
use flowbee.Job.Record.{Job}
use flowbee.Ledger.Event.{zero_payload}
use flowbee.Ledger.Event.EventKind.{worker_started, result_accepted}
use flowbee.Ledger.Fold.{fold_kind, is_human_gate}
use flowbee.Ledger.Cases.Lease.{result_accepted_case}
use flowbee.Ledger.Cases.Shared.{clear_lease}
use flowbee.Engine.Review.{is_mergeable}
use flowbee.Engine.{decide}
use flowbee.Engine.Types.{Transition, fenced, rejected, moving, move}
use flowbee.Engine.Lease.{decide_work_result, work_result_arm}
use flowbee.Store.Release.{release_snapshot}
use flowbee.Store.Row.{JobStore, logged}
use flowbee.Store.Row.Replay.{replayed-IsConsistent}
use flowbee.Store.Tables.{Tables, Response, committed, append}
use flowbee.Store.Result.{
  ResultParams, arm_no_eligible, result_event, result_events, last_seq, final_state, moved_on_row,
  built_row, finish_result, result_writes, fresh_result, cached_response, store_result,
}
use flowbee.Store.Lifecycle.Soundness.{IsSound, append-IsSound, settled-logged}

-- The row once the work has started.
abbrev started_row : Job → Job
started_row j = record j { state = building; job_seq = j.job_seq + 1 }

started-IsSound :
    (p : ResultParams) (st : JobStore)
    → IsSound st
    → st.job.state ≡ leased
    → IsSound (
        append
          (started_row st.job)
          (result_event p st.job (st.job.job_seq + 1) (move leased building worker_started))
          st)
unfolding result_event fold_kind zero_payload logged move is_human_gate is_mergeable
started-IsSound p st s at =
    let e = result_event p st.job (st.job.job_seq + 1) (move leased building worker_started) in
    let c = replayed-IsConsistent st s.replayed in
    append-IsSound st (started_row st.job) e s (λ j. refl)
      (settled-logged st.job (record st.job { state = building }) (started_row st.job) e refl
        (refl, refl, refl) (ground arith) refl)
      s.builds refl (λ w. s.worked (rw at refl)) (λ v. s.unjudged (rw at refl)) refl

-- A worker's row that becomes a build under review, by an event of its own or of the row before.
built-IsSound :
    (p : ResultParams) (st : JobStore) (j : Job) (seq : ℕ)
    → IsSound st
    → st.job.state ≡ building
    → IsSound (
        append
          (built_row p st.job seq)
          (result_event p j seq (move building review_pending result_accepted))
          st)
unfolding result_event built_row moved_on_row fold_kind result_accepted_case clear_lease
    zero_payload logged move is_human_gate is_mergeable
built-IsSound p st j seq s at =
    let e = result_event p j seq (move building review_pending result_accepted) in
    let c = replayed-IsConsistent st s.replayed in
    let (role, _) = s.worked (rw at refl) in
    append-IsSound st (built_row p st.job seq) e s (λ j. refl)
      (settled-logged st.job (result_accepted_case e st.job) (built_row p st.job seq) e refl
        (refl, refl, refl) (ground arith) (rw role refl))
      s.builds refl (λ w. absurd (ground (arith, w))) (λ v. s.unjudged (rw at refl)) refl

-- From `leased` a result starts the work first.
abbrev leased_moves : List Transition
leased_moves =
    move leased building worker_started ∷ move building review_pending result_accepted ∷ []

abbrev building_moves : List Transition
building_moves = move building review_pending result_accepted ∷ []

abbrev finished : ResultParams → Tables → List Transition → Response → JobStore
finished p db ts r =
    (finish_result p db ts (built_row p db.store.job (last_seq db.store.job.job_seq ts)) r).store

finished_leased-IsSound :
    (p : ResultParams) (db : Tables) (r : Response)
    → IsSound db.store
    → db.store.job.state ≡ leased
    → IsSound (finished p db leased_moves r)
unfolding finish_result result_events last_seq append built_row moved_on_row
finished_leased-IsSound p db r s at =
    let j = db.store.job in
    let e = result_event p j (j.job_seq + 1) (move leased building worker_started) in
    let f = result_event p j (j.job_seq + 1 + 1) (move building review_pending result_accepted) in
    subst (λ es. IsSound (record { job = built_row p j (j.job_seq + 1 + 1); events = es }))
      (append_assoc db.store.events (e ∷ []) (f ∷ []))
      (built-IsSound p (append (started_row j) e db.store) j (j.job_seq + 1 + 1)
        (started-IsSound p db.store s at) refl)

finished_building-IsSound :
    (p : ResultParams) (db : Tables) (r : Response)
    → IsSound db.store
    → db.store.job.state ≡ building
    → IsSound (finished p db building_moves r)
unfolding finish_result result_events last_seq append
finished_building-IsSound p db r s at =
    built-IsSound p db.store db.store.job (db.store.job.job_seq + 1) s at

-- A result that commits leaves the store that `finish_result` makes.
result_writes-store :
    (delay : ℕ) (p : ResultParams) (db db' : Tables) (ts : List Transition) (r : Response)
    → result_writes delay p db ts review_pending ≡ committed (db', r)
    → (r' : Response) × (db'.store ≡ finished p db ts r')
unfolding result_writes
result_writes-store delay p db db' ts r h =
    elim (Option-cases
      (arm_no_eligible delay db.store.job.id db.store.job.lease_epoch p.now db.timers)) [
        | inl e ↦ absurd (ground arith)
        | inr (timers, e) ↦ (
          record {
            accepted = true;
            job_state = state_text review_pending;
            verdict = [];
            minted = false;
          },
          ground arith,
        )
      ]

fresh_from :
    (delay : ℕ) (p : ResultParams) (db db' : Tables) (r : Response) (at : State)
    → db.store.job.state ≡ at
    → (work_result_arm at).reject ≡ none
    → result_writes delay p db
        (work_result_arm at).transitions
        (final_state at (work_result_arm at).transitions)
      ≡ committed (db', r)
    → IsSound db.store
    → IsSound db'.store
unfolding work_result_arm final_state moving move
fresh_from delay p db db' r leased at ok h s =
    let (r', e) = result_writes-store delay p db db' leased_moves r h in
    subst IsSound (sym e) (finished_leased-IsSound p db r' s at)
fresh_from delay p db db' r building at ok h s =
    let (r', e) = result_writes-store delay p db db' building_moves r h in
    subst IsSound (sym e) (finished_building-IsSound p db r' s at)
fresh_from delay p db db' r _ at ok h s = absurd (ground arith)

-- A fresh result that commits carries the live epoch.
pub fresh_result-committed :
    (sha256 : Text → Text) (delay : ℕ) (p : ResultParams) (db db' : Tables) (r : Response)
    → fresh_result sha256 delay p db ≡ committed (db', r)
    → (p.epoch ≡ db.store.job.lease_epoch)
      × ((work_result_arm db.store.job.state).reject ≡ none)
      × (result_writes delay p db
            (work_result_arm db.store.job.state).transitions
            (final_state db.store.job.state (work_result_arm db.store.job.state).transitions)
          ≡ committed (db', r))
unfolding fresh_result decide decide_work_result release_snapshot fenced rejected
fresh_result-committed sha256 delay p db db' r h =
    let at = db.store.job.state in
    elim (Bool-cases (p.epoch == db.store.job.lease_epoch)) [
      | inr stale ↦ absurd (ground arith)
      | inl live ↦ elim (Option-cases (work_result_arm at).reject) [
        | inr (why, refused) ↦ absurd (ground arith)
        | inl ok ↦ (ground arith, ok, ground arith)
      ]
    ]

pub store_result-cases :
    (sha256 : Text → Text) (delay : ℕ) (p : ResultParams) (db db' : Tables) (r : Response)
    → store_result sha256 delay p db ≡ committed (db', r)
    → (db' ≡ db) ⊎ (fresh_result sha256 delay p db ≡ committed (db', r))
unfolding store_result
store_result-cases sha256 delay p db db' r h = elim (Bool-cases (is_empty p.idempotency_key)) [
  | inl e ↦ inr (rw e at h)
  | inr e ↦ elim (Option-cases (cached_response p.idempotency_key db.responses)) [
    | inl f ↦ inr (rw (e, f) at h)
    | inr (c, f) ↦ inl (ground arith)
  ]
]

pub store_result-IsSound :
    (sha256 : Text → Text) (delay : ℕ) (p : ResultParams) (db db' : Tables) (r : Response)
    → store_result sha256 delay p db ≡ committed (db', r)
    → IsSound db.store
    → IsSound db'.store
store_result-IsSound sha256 delay p db db' r h s =
    elim (store_result-cases sha256 delay p db db' r h) [
      | inl same ↦ subst (λ d. IsSound d.store) (sym same) s
      | inr fresh ↦
          let (_, ok, writes) = fresh_result-committed sha256 delay p db db' r fresh in
          fresh_from delay p db db' r db.store.job.state refl ok writes s
    ]
