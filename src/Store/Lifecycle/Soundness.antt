-- ===== src/Store/Lifecycle/Soundness.antt =====
-- What the row of a build keeps through the transactions of internal/store, and how one appended event
-- or one revocation preserves it.
use flowbee.Base.{◌≡◌, ◌≢◌, refl, sym, ap, ◌∙◌, Bool, true, false, none, [], ℕ, arith}
use flowbee.Base.Text.{Text, is_empty}
use flowbee.Job.State.{
  State, ready, leased, building, review_pending, code_review, mergeable, needs_human, failed,
  resolving_conflict, build, eng_worker, has_active_lease,
}
use flowbee.Job.Record.{Job}
use flowbee.Ledger.Event.{Event}
use flowbee.Ledger.Fold.{apply_event, fold_kind, is_human_gate}
use flowbee.Ledger.Fold.Invariants.{IsConsistent, HasRole}
use flowbee.Ledger.Fold.Audit.{IsBare}
use flowbee.Engine.Review.{is_mergeable}
use flowbee.Engine.Types.{Transition, move}
use flowbee.Store.Row.{JobStore, logged}
use flowbee.Store.Row.Replay.{
  IsReplayed, ReadsLogged, append-IsReplayed, replayed-IsConsistent, apply_event-settled,
}
use flowbee.Store.Tables.{Tables, append}
use flowbee.Store.Revoke.{apply_revoke, revoked_row, revoked_event}
use flowbee.Store.Lifecycle.Rounds.{is_spec_stage, Revocable}
use flowbee.Store.Lifecycle.Revocations.{
  IsRevocation, revoked, escalated, exited, cancelled, IsRevocation-Agrees,
  revoked_event-ReadsLogged,
}

-- The states of a build up to its verdict.
abbrev pub is_build_stage : State → Bool
is_build_stage ready = true
is_build_stage leased = true
is_build_stage building = true
is_build_stage review_pending = true
is_build_stage code_review = true
is_build_stage mergeable = true
is_build_stage needs_human = true
is_build_stage failed = true
is_build_stage _ = false

abbrev pub is_worked : State → Bool
is_worked leased = true
is_worked building = true
is_worked _ = false

-- The row agrees with its events and is a build before its merge, and a worker holds it with the
-- worker's role. No verdict stands before the gate gives one, and the base is known.
pub record IsSound (st : JobStore) : Type 0 where
  pub replayed : IsReplayed st
  pub builds : st.job.kind ≡ build
  pub placed : is_build_stage st.job.state ≡ true
  pub worked : is_worked st.job.state ≡ true → HasRole st.job eng_worker
  pub unjudged : is_mergeable st.job.state ≡ false → st.job.verdict ≡ none
  pub based : is_empty st.job.base_sha ≡ false

-- An update that folds the way its event does.
pub append-IsSound :
    (st : JobStore) (row : Job) (e : Event)
    → IsSound st
    → ReadsLogged (fold_kind e.kind e)
    → logged row ≡ logged (apply_event st.job e)
    → row.kind ≡ build
    → is_build_stage row.state ≡ true
    → (is_worked row.state ≡ true → HasRole row eng_worker)
    → (is_mergeable row.state ≡ false → row.verdict ≡ none)
    → row.base_sha ≡ st.job.base_sha
    → IsSound (append row e st)
unfolding append
append-IsSound st row e s r h k p w v b = record {
  replayed = append-IsReplayed st e row r s.replayed h;
  builds = k;
  placed = p;
  worked = w;
  unjudged = v;
  based = rw b s.based;
}

-- An event without notes or a reason whose case leaves a consistent row.
pub settled-logged :
    (j r row : Job) (e : Event)
    → fold_kind e.kind e j ≡ r
    → IsBare e
    → IsConsistent r
    → logged row ≡ logged (record r { job_seq = e.job_seq })
    → logged row ≡ logged (apply_event j e)
settled-logged j r row e f b c h = h ∙ ap logged (sym (apply_event-settled j r e f b c))

pub build_stage_other :
    (s : State) → is_build_stage s ≡ true → (is_spec_stage s ≡ false) × (s ≢ resolving_conflict)
build_stage_other s p = ground arith

pub active_open :
    (s : State) → has_active_lease s ≡ true → (is_human_gate s ≡ false) × (is_mergeable s ≡ false)
unfolding has_active_lease is_human_gate is_mergeable
active_open s a = ground arith

pub revoked-to : (from to : State) (t : Transition) → IsRevocation from to t → t.to ≡ to
unfolding move
revoked-to from to t (revoked a s why) = refl
revoked-to from to t (escalated s why) = refl
revoked-to from to t (exited why) = refl
revoked-to from to t (cancelled a why) = refl

-- A revocation of a lease that is held on the way to a verdict.
pub apply_revoke-IsSound :
    (db : Tables) (from to : State) (t : Transition) (epoch now : ℕ) (reason : Text)
    → IsSound db.store
    → IsRevocation from to t
    → has_active_lease db.store.job.state ≡ true
    → is_build_stage to ≡ true
    → is_worked to ≡ false
    → (is_human_gate to ≡ false → reason ≡ [])
    → IsSound (apply_revoke db t epoch now reason).store
unfolding apply_revoke revoked_row revoked_event
apply_revoke-IsSound db from to t epoch now reason s r a p w g =
    let (held, open_case) = active_open db.store.job.state a in
    let c = replayed-IsConsistent db.store s.replayed in
    let (spec, off) = build_stage_other to p in
    let there = revoked-to from to t r in
    let ok : Revocable db.store.job to reason =
      (s.builds, spec, c.reason_gated held, c.budget_gated held, g, λ at. absurd (off at)) in
    append-IsSound db.store (revoked_row db.store.job t epoch now reason)
      (revoked_event db.store.job t epoch now reason) s
      (revoked_event-ReadsLogged db.store.job from to t epoch now reason r)
      (IsRevocation-Agrees db.store.job from to epoch now reason ok t r) s.builds (rw there p)
      (λ h. absurd (ground (arith, there, w, h))) (λ h. s.unjudged open_case) refl
