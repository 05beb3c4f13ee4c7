-- ===== src/Store/Watch.antt =====
-- internal/store/liveness.go: `ArmLeaseLivenessTimers`, `EvaluateLiveness` and `FireLeaseDeadline`. An
-- instant counts the nanoseconds since the zero time, which is 0, and no budget is negative.
use flowbee.Base.{
  ℕ, ◌+◌, ◌-◌, ◌++◌, ◌==◌, ltb, leb, Bool, true, false, not, ◌&&◌, ◌||◌, if◌then◌else◌, List, [],
  ◌∷◌, Option, none, some,
}
use flowbee.Base.Text.{Text, bytes}
use flowbee.Base.Decimal.{decimal}
use flowbee.Job.State.{
  State, unset, needs_human, liveness_evaluable, escalation_attempts, escalation_stall,
}
use flowbee.Job.Record.{Job}
use flowbee.Liveness.{abstain, RungSet}
use flowbee.Engine.{decide}
use flowbee.Engine.Types.{EngineEvent, Transition}
use flowbee.Store.Release.{release_snapshot}
use flowbee.Store.Tables.{Tables, LivenessColumns, Timer, arm_timer, mark_timer_fired}
use flowbee.Store.Revoke.{bumped_epoch, apply_revoke}

-- The other two fields, `Rung2Window` and `CircuitBreakerAbstainFraction`, are read outside these
-- functions, by internal/store/rung2.go; the state of the breaker is an input here.
pub record LivenessConfig : Type 0 where
  pub phase_budget : ℕ
  pub absolute_cap : ℕ
  pub governor_ceiling : ℕ
  pub heartbeat_reap_after : ℕ

abbrev timer_lease_deadline : Text
timer_lease_deadline = bytes "lease_deadline_check"

abbrev timer_phase_deadline : Text
timer_phase_deadline = bytes "phase_deadline_check"

unfoldable pub deadline_timer : Text → Text → Text → ℕ → ℕ → Timer
deadline_timer job part kind due epoch = record {
  id = job ++ part ++ decimal epoch;
  kind = kind;
  due_at = due;
  expected_epoch = epoch;
  fired = false;
}

-- `if budget > 0 { armTimerTx(…) }`
unfoldable pub arm_if : ℕ → Timer → List Timer → List Timer
arm_if budget t timers = if ltb 0 budget then arm_timer t timers else timers

unfoldable pub arm_lease_liveness_timers : LivenessConfig → ℕ → ℕ → Tables → Tables
arm_lease_liveness_timers cfg epoch now db =
    let phase =
      deadline_timer db.store.job.id (bytes "-phase-e") timer_phase_deadline
        (now + cfg.phase_budget) epoch in
    let cap =
      deadline_timer db.store.job.id (bytes "-cap-e") timer_lease_deadline (now + cfg.absolute_cap)
        epoch in
    record db {
      live = record (db.live) {
        phase_deadline_at = some (now + cfg.phase_budget);
        lease_deadline = some (now + cfg.absolute_cap);
        last_heartbeat_at = some now;
        rung2_last_verdict = abstain;
        rung2_window_head = [];
        rung2_window_started_at = none;
        ci_running = false;
      };
      timers = arm_if cfg.absolute_cap cap (arm_if cfg.phase_budget phase db.timers);
    }

-- `at.Valid && !now.Before(t)`
unfoldable pub reached : ℕ → Option ℕ → Bool
reached now none = false
reached now (some t) = leb t now

-- The grant of the lease, if its deadline and the cap tell it.
unfoldable pub grant_time : LivenessConfig → Option ℕ → ℕ
grant_time cfg none = 0
grant_time cfg (some deadline) = if ltb 0 cfg.absolute_cap then deadline - cfg.absolute_cap else 0

-- The worker's last activity: the grant or the last heartbeat, whichever is later.
unfoldable pub last_seen : LivenessConfig → LivenessColumns → ℕ
last_seen cfg l =
    let grant = grant_time cfg l.lease_deadline in
    elim l.last_heartbeat_at [ none ↦ grant | some t ↦ if ltb grant t then t else grant ]

unfoldable pub is_heartbeat_stale : LivenessConfig → LivenessColumns → ℕ → Bool
is_heartbeat_stale cfg l now =
    let seen = last_seen cfg l in
    ltb 0 cfg.heartbeat_reap_after && not (seen == 0) && ltb cfg.heartbeat_reap_after (now - seen)

unfoldable pub rungs_at : LivenessConfig → LivenessColumns → ℕ → Bool → RungSet
rungs_at cfg l now breaker = record {
  health = l.agent_health;
  rung1 = l.rung1_class;
  rung2 = l.rung2_last_verdict;
  rung3 = record {
    soft_crossed = reached now l.phase_deadline_at;
    absolute_cap = reached now l.lease_deadline;
    heartbeat_stale = is_heartbeat_stale cfg l now;
  };
  circuit_breaker_tripped = breaker;
}

unfoldable pub governor_reached : LivenessConfig → Job → Bool
governor_reached cfg j =
    ltb 0 cfg.governor_ceiling && leb cfg.governor_ceiling (j.stall_revocations + 1)

unfoldable pub attempts_exhausted : Job → Bool
attempts_exhausted j = leb j.max_attempts (j.attempts + 1)

unfoldable pub liveness_report : LivenessConfig → Tables → ℕ → Bool → EngineEvent
liveness_report cfg db now breaker = EngineEvent.liveness_verdict (record {
  rungs = rungs_at cfg db.live now breaker;
  governor_ceiling_reached = governor_reached cfg db.store.job;
  attempts_exhausted = attempts_exhausted db.store.job;
})

unfoldable pub is_needs_human : State → Bool
is_needs_human needs_human = true
is_needs_human _ = false

-- `escReason`
unfoldable pub escalation_of : LivenessConfig → Job → Transition → Text
escalation_of cfg j t =
    if not (is_needs_human t.to)
    then []
    else if attempts_exhausted j && not (governor_reached cfg j)
    then escalation_attempts
    else escalation_stall

pub record LivenessResult : Type 0 where
  pub killed : Bool
  pub to_state : State
  pub reason : Text
  pub escalated : Bool
  pub new_epoch : ℕ

unfoldable pub survived : LivenessResult
survived = record {
  killed = false;
  to_state = unset;
  reason = [];
  escalated = false;
  new_epoch = 0;
}

unfoldable pub killed_with : Job → Transition → LivenessResult
killed_with j t = record {
  killed = true;
  to_state = t.to;
  reason = t.revoke_reason;
  escalated = is_needs_human t.to;
  new_epoch = bumped_epoch j t;
}

unfoldable pub liveness_writes :
    LivenessConfig → Tables → ℕ → List Transition → Tables × LivenessResult
liveness_writes cfg db now [] = (db, survived)
liveness_writes cfg db now (t ∷ rest) =
    let j = db.store.job in
    (apply_revoke db t (bumped_epoch j t) now (escalation_of cfg j t), killed_with j t)

unfoldable pub evaluate_liveness :
    (Text → Text) → LivenessConfig → Bool → ℕ → Tables → Tables × LivenessResult
evaluate_liveness sha256 cfg breaker now db =
    if not (liveness_evaluable db.store.job.state)
    then (db, survived)
    else liveness_writes cfg db now
        (decide sha256 (release_snapshot db.store.job now)
          (liveness_report cfg db now breaker)).transitions

unfoldable pub fired_timer : Text → Tables → Tables
fired_timer id db = record db { timers = mark_timer_fired id db.timers }

-- The guard, the evaluation and the mark, one after the other; the source runs each on its own, and
-- the transactions of a run (Store/Lifecycle/Steps) have the evaluation and the mark apart as well.
-- A timer of another epoch, or one that finds no worker's lease, is only marked.
unfoldable pub fire_lease_deadline :
    (Text → Text) → LivenessConfig → Bool → ℕ → Timer → Tables → Tables × LivenessResult
fire_lease_deadline sha256 cfg breaker now t db =
    if not (db.store.job.lease_epoch == t.expected_epoch)
      || not (liveness_evaluable db.store.job.state)
    then (fired_timer t.id db, survived)
    else let (db', res) = evaluate_liveness sha256 cfg breaker now db in (fired_timer t.id db', res)
