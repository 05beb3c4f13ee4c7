-- ===== src/Store/Lifecycle/Beats.antt =====
-- The heartbeat of internal/store/queries.go and the stall ladder of internal/store/liveness.go preserve the
-- soundness of a build.
use flowbee.Base.{
  ◌≡◌, refl, sym, subst, ◌⊎◌, inl, inr, Bool, true, false, not, List, [], ◌∷◌, Option, ℕ, arith,
  Bool-cases,
}
use flowbee.Base.Text.{Text, bytes}
use flowbee.Job.State.{State, failed, needs_human, has_active_lease, liveness_evaluable}
use flowbee.Job.Record.{Job}
use flowbee.Ledger.Event.{zero_payload}
use flowbee.Ledger.Fold.{fold_kind, is_human_gate}
use flowbee.Liveness.{
  KillDecision, evaluate_kill, FastPath, no_fast_path, fast_cancel, fast_failed, evaluate_fast_path,
}
use flowbee.Engine.{decide}
use flowbee.Engine.Types.{
  EngineState, LivenessVerdict, no_decision, Transition, Directive, redispatch_target, fenced,
  rejected, directed, moving, move,
}
use flowbee.Engine.Lease.{
  decide_heartbeat, heartbeat_arm, decide_liveness, kill_arm, escalates, kill_reason,
}
use flowbee.Store.Release.{release_snapshot}
use flowbee.Store.Row.{logged}
use flowbee.Store.Row.Replay.{replayed-IsConsistent}
use flowbee.Store.Tables.{Tables, committed}
use flowbee.Store.Revoke.{apply_revoke, bumped_epoch}
use flowbee.Store.Heartbeat.{
  HeartbeatParams, heartbeat_report, heartbeat_event, beaten_row, record_heartbeat,
  heartbeat_writes, store_heartbeat,
}
use flowbee.Store.Watch.{
  LivenessConfig, liveness_report, escalation_of, is_needs_human, liveness_writes,
  evaluate_liveness,
}
use flowbee.Store.Lifecycle.Revocations.{IsRevocation, revoked, escalated, exited, cancelled}
use flowbee.Store.Lifecycle.Soundness.{
  IsSound, append-IsSound, settled-logged, apply_revoke-IsSound, is_build_stage, is_worked,
  revoked-to,
}

-- What a list of transitions says of a lease: nothing, or how it is revoked and where the job goes.
abbrev pub Revokes : State → List Transition → Type 0
Revokes from [] = Unit
Revokes from (t ∷ ts) =
    (to : State) × IsRevocation from to t
    × (t.bump_epoch ≡ true)
    × ((to ≡ failed) ⊎ (to ≡ needs_human) ⊎ (to ≡ redispatch_target from))

heartbeat_arm-Revokes :
    (s : EngineState) (f : FastPath) → Revokes s.job.state (heartbeat_arm s f).transitions
unfolding heartbeat_arm directed moving move
heartbeat_arm-Revokes s no_fast_path = tt
heartbeat_arm-Revokes s fast_cancel =
    (redispatch_target s.job.state, cancelled 1 (bytes "awaiting_input"), refl, inr (inr refl))
heartbeat_arm-Revokes s fast_failed = (failed, exited (bytes "agent_exited"), refl, inl refl)

-- A heartbeat that commits carries the live epoch of a lease that is held.
pub store_heartbeat-committed :
    (sha256 : Text → Text) (p : HeartbeatParams) (db db' : Tables) (d : Option Directive)
    → store_heartbeat sha256 p db ≡ committed (db', d)
    → (p.epoch ≡ db.store.job.lease_epoch)
      × (has_active_lease db.store.job.state ≡ true)
      × (ts : List Transition) × Revokes db.store.job.state ts
      × (db' ≡ heartbeat_writes p db ts)
unfolding store_heartbeat release_snapshot decide decide_heartbeat fenced rejected heartbeat_report
store_heartbeat-committed sha256 p db db' d h =
    let s = release_snapshot db.store.job p.now in
    let f = evaluate_fast_path p.health p.awaiting_input p.agent_exited in
    (
      ground arith,
      ground arith,
      (heartbeat_arm s f).transitions,
      heartbeat_arm-Revokes s f,
      ground arith,
    )

-- Where a revoked lease of a build takes it.
Revokes-lands :
    (from to : State)
    → is_build_stage from ≡ true
    → has_active_lease from ≡ true
    → (to ≡ failed) ⊎ (to ≡ needs_human) ⊎ (to ≡ redispatch_target from)
    → (is_build_stage to ≡ true) × (is_worked to ≡ false)
unfolding has_active_lease redispatch_target is_human_gate
Revokes-lands from to b a h = ground arith

-- The first transition of a decision that revokes, applied to a build.
pub Revokes-IsSound :
    (db : Tables) (t : Transition) (ts : List Transition) (epoch now : ℕ) (reason : Text)
    → IsSound db.store
    → has_active_lease db.store.job.state ≡ true
    → Revokes db.store.job.state (t ∷ ts)
    → (is_human_gate t.to ≡ false → reason ≡ [])
    → IsSound (apply_revoke db t epoch now reason).store
Revokes-IsSound db t ts epoch now reason s a (to, r, _, lands) g =
    let (b, w) = Revokes-lands db.store.job.state to s.placed a lands in
    apply_revoke-IsSound db db.store.job.state to t epoch now reason s r a b w
      (subst (λ x. is_human_gate x ≡ false → reason ≡ []) (revoked-to db.store.job.state to t r) g)

record_heartbeat-IsSound :
    (p : HeartbeatParams) (db : Tables) → IsSound db.store → IsSound (record_heartbeat p db).store
unfolding record_heartbeat beaten_row heartbeat_event fold_kind zero_payload logged
record_heartbeat-IsSound p db s =
    let c = replayed-IsConsistent db.store s.replayed in
    append-IsSound db.store (beaten_row db.store.job) (heartbeat_event p db.store.job) s (λ j. refl)
      (settled-logged db.store.job db.store.job (beaten_row db.store.job)
        (heartbeat_event p db.store.job) refl (refl, refl, refl) c refl)
      s.builds s.placed s.worked s.unjudged refl

heartbeat_writes-IsSound :
    (p : HeartbeatParams) (db : Tables) (ts : List Transition)
    → IsSound db.store
    → has_active_lease db.store.job.state ≡ true
    → Revokes db.store.job.state ts
    → IsSound (heartbeat_writes p db ts).store
unfolding heartbeat_writes
heartbeat_writes-IsSound p db [] s a r = record_heartbeat-IsSound p db s
heartbeat_writes-IsSound p db (t ∷ ts) s a r =
    Revokes-IsSound db t ts (bumped_epoch db.store.job t) p.now [] s a r (λ h. refl)

pub store_heartbeat-IsSound :
    (sha256 : Text → Text) (p : HeartbeatParams) (db db' : Tables) (d : Option Directive)
    → store_heartbeat sha256 p db ≡ committed (db', d)
    → IsSound db.store
    → IsSound db'.store
store_heartbeat-IsSound sha256 p db db' d h s =
    let (_, a, ts, r, e) = store_heartbeat-committed sha256 p db db' d h in
    subst (λ x. IsSound x.store) (sym e) (heartbeat_writes-IsSound p db ts s a r)

kill_arm-Revokes :
    (from : State) (l : LivenessVerdict) (k : KillDecision)
    → Revokes from (kill_arm from l k).transitions
unfolding kill_arm moving move
kill_arm-Revokes from l k = elim (Bool-cases (escalates k l)) [
  | inl h ↦ rw h (needs_human, escalated 1 (kill_reason k l.rungs), refl, inr (inl refl))
  | inr h ↦ rw h (redispatch_target from, revoked 1 1 (kill_reason k l.rungs), refl, inr (inr refl))
]

pub decide_liveness-Revokes :
    (s : EngineState) (l : LivenessVerdict) → Revokes s.job.state (decide_liveness s l).transitions
unfolding decide_liveness rejected no_decision
decide_liveness-Revokes s l = elim (Bool-cases (not (has_active_lease s.job.state))) [
  | inl idle ↦ rw idle tt
  | inr held ↦ elim (Bool-cases (not (evaluate_kill l.rungs).kill)) [
    | inl lives ↦ rw (held, lives) tt
    | inr dies ↦ rw (held, dies) (kill_arm-Revokes s.job.state l (evaluate_kill l.rungs))
  ]
]

escalation_of-gated :
    (cfg : LivenessConfig) (j : Job) (t : Transition)
    → is_human_gate t.to ≡ false
    → escalation_of cfg j t ≡ []
unfolding escalation_of is_needs_human is_human_gate
escalation_of-gated cfg j t h = ground arith

liveness_writes-IsSound :
    (cfg : LivenessConfig) (db : Tables) (now : ℕ) (ts : List Transition)
    → IsSound db.store
    → has_active_lease db.store.job.state ≡ true
    → Revokes db.store.job.state ts
    → IsSound (liveness_writes cfg db now ts).0.store
unfolding liveness_writes
liveness_writes-IsSound cfg db now [] s a r = s
liveness_writes-IsSound cfg db now (t ∷ ts) s a r =
    Revokes-IsSound db t ts (bumped_epoch db.store.job t) now (escalation_of cfg db.store.job t) s a
      r (escalation_of-gated cfg db.store.job t)

pub evaluable_active : (s : State) → liveness_evaluable s ≡ true → has_active_lease s ≡ true
unfolding liveness_evaluable has_active_lease
evaluable_active s h = ground arith

pub evaluate_liveness-IsSound :
    (sha256 : Text → Text) (cfg : LivenessConfig) (breaker : Bool) (now : ℕ) (db : Tables)
    → IsSound db.store
    → IsSound (evaluate_liveness sha256 cfg breaker now db).0.store
unfolding evaluate_liveness decide liveness_report release_snapshot
evaluate_liveness-IsSound sha256 cfg breaker now db s =
    elim (Bool-cases (liveness_evaluable db.store.job.state)) [
      | inr idle ↦ rw idle s
      | inl held ↦ rw held (
          liveness_writes-IsSound cfg db now _ s (evaluable_active db.store.job.state held)
            (decide_liveness-Revokes _ _))
    ]
