-- ===== src/Engine/Lease.antt =====
-- internal/engine/engine.go: the arms of `Decide` for a live lease: heartbeats, cost reports, the
-- liveness verdict, results and releases.
use flowbee.Base.{ℕ, Bool, true, not, ◌&&◌, ◌||◌, if◌then◌else◌, [], ◌∷◌, some}
use flowbee.Base.Text.{Text, bytes}
use flowbee.Job.State.{
  State, ready, leased, building, review_pending, code_review, needs_human, failed,
  has_active_lease, cost_exceeded, escalation_cost,
}
use flowbee.Job.Record.{Job}
use flowbee.Liveness.{
  RungSet, KillDecision, evaluate_kill, FastPath, no_fast_path, fast_cancel, fast_failed,
  evaluate_fast_path,
}
use flowbee.Ledger.Event.EventKind.{
  worker_started, result_accepted, lease_released, lease_revoked, stall_escalated, agent_exited,
  fast_cancelled, cost_escalated,
}
use flowbee.Engine.Types.{
  EngineState, Heartbeat, LivenessVerdict, continue, cancel, Transition, move, Decision,
  no_decision, rejected, directed, moving, redispatch_target, fenced, not_active,
}

-- `s.Job.OverBudget || job.CostExceeded(…)`
unfoldable pub is_over_cost : Job → Bool
is_over_cost j = j.over_budget || cost_exceeded j.cost_micro_usd j.cost_ceiling_micro_usd

agent_exited_move : State → Transition
unfolding move
agent_exited_move s = record (move s failed agent_exited) {
  bump_epoch = true;
  revoke_reason = bytes "agent_exited";
}

fast_cancelled_move : State → Transition
unfolding move
fast_cancelled_move s = record (move s (redispatch_target s) fast_cancelled) {
  attempts_delta = 1;
  bump_epoch = true;
  revoke_reason = bytes "awaiting_input";
}

unfoldable pub heartbeat_arm : EngineState → FastPath → Decision
unfolding moving directed agent_exited_move fast_cancelled_move
heartbeat_arm s fast_failed = record (moving (agent_exited_move s.job.state)) {
  directive = some cancel;
}
heartbeat_arm s fast_cancel = record (moving (fast_cancelled_move s.job.state)) {
  directive = some cancel;
}
heartbeat_arm s no_fast_path = directed (if is_over_cost s.job then cancel else continue)

unfoldable pub decide_heartbeat : EngineState → Heartbeat → Decision
unfolding rejected
decide_heartbeat s h = fenced h.epoch s.epoch (
    if not (has_active_lease s.job.state)
    then rejected not_active
    else heartbeat_arm s (evaluate_fast_path h.health h.awaiting_input h.agent_exited))

cost_escalated_move : State → Transition
unfolding move
cost_escalated_move s = record (move s needs_human cost_escalated) {
  bump_epoch = true;
  revoke_reason = escalation_cost;
}

unfoldable pub decide_cost_meter : EngineState → ℕ → Decision
unfolding rejected directed moving cost_escalated_move
decide_cost_meter s epoch = fenced epoch s.epoch (
    if not (has_active_lease s.job.state)
    then rejected not_active
    else if not (cost_exceeded s.job.cost_micro_usd s.job.cost_ceiling_micro_usd)
    then directed continue
    else record (moving (cost_escalated_move s.job.state)) { directive = some cancel })

-- Why the lease is revoked; the absolute cap names the kill when both clock truths hold.
unfoldable pub kill_reason : KillDecision → RungSet → Text
kill_reason kd rs =
    if kd.unilateral
    then (if not rs.rung3.absolute_cap && rs.rung3.heartbeat_stale
        then bytes "heartbeat_stale"
        else bytes "absolute_cap")
    else bytes "two_rung_stall"

unfoldable pub escalates : KillDecision → LivenessVerdict → Bool
escalates kd l =
    if kd.unilateral
    then l.attempts_exhausted || l.governor_ceiling_reached
    else l.governor_ceiling_reached

stall_escalated_move : State → Text → Transition
unfolding move
stall_escalated_move s reason = record (move s needs_human stall_escalated) {
  stall_revocations_delta = 1;
  bump_epoch = true;
  revoke_reason = reason;
}

lease_revoked_move : State → Text → Transition
unfolding move
lease_revoked_move s reason = record (move s (redispatch_target s) lease_revoked) {
  attempts_delta = 1;
  stall_revocations_delta = 1;
  bump_epoch = true;
  revoke_reason = reason;
}

unfoldable pub kill_arm : State → LivenessVerdict → KillDecision → Decision
unfolding moving stall_escalated_move lease_revoked_move
kill_arm s l kd =
    let reason = kill_reason kd l.rungs in
    if escalates kd l
    then moving (stall_escalated_move s reason)
    else moving (lease_revoked_move s reason)

unfoldable pub decide_liveness : EngineState → LivenessVerdict → Decision
unfolding rejected no_decision
decide_liveness s l =
    if not (has_active_lease s.job.state)
    then rejected not_active
    else if not (evaluate_kill l.rungs).kill
    then no_decision
    else kill_arm s.job.state l (evaluate_kill l.rungs)

-- A result from `leased` first starts the work.
unfoldable pub work_result_arm : State → Decision
unfolding move moving rejected no_decision
work_result_arm leased = record no_decision {
  transitions =
      move leased building worker_started ∷ move building review_pending result_accepted ∷ [];
}
work_result_arm building = moving (move building review_pending result_accepted)
work_result_arm _ = rejected (bytes "job not in a state that accepts a result")

unfoldable pub decide_work_result : EngineState → ℕ → Decision
decide_work_result s epoch = fenced epoch s.epoch (work_result_arm s.job.state)

unfoldable pub release_target : State → State
release_target code_review = review_pending
release_target _ = ready

lease_released_move : State → Transition
unfolding move
lease_released_move s = record (move s (release_target s) lease_released) { attempts_delta = 1 }

unfoldable pub decide_release : EngineState → ℕ → Decision
unfolding rejected moving lease_released_move
decide_release s epoch = fenced epoch s.epoch (
    if not (has_active_lease s.job.state)
    then rejected not_active
    else moving (lease_released_move s.job.state))
