-- ===== src/Liveness.antt =====
-- internal/liveness/liveness.go: the rungs of the stall ladder and the kill rule.
pub mod Kills
use flowbee.Base.{Bool, true, false, not, ◌&&◌, ◌||◌, if◌then◌else◌}
use flowbee.Base.Text.{Text, bytes}

-- The three signals are Go strings that a worker reports or a row stores. The last constructor is
-- any other text; `unknown` is the empty one.
pub data AgentHealth : Type 0 where
  ok zombie stdin_block cpu_spin oom hung_child unknown : AgentHealth
  other_health : Text → AgentHealth

pub data Rung1Class : Type 0 where
  working frozen spinning unknown_class : Rung1Class
  other_class : Text → Rung1Class

pub data Rung2Verdict : Type 0 where
  converging stalled abstain : Rung2Verdict
  other_verdict : Text → Rung2Verdict

pub record Rung3State : Type 0 where
  pub soft_crossed : Bool
  pub absolute_cap : Bool
  pub heartbeat_stale : Bool

pub record RungSet : Type 0 where
  pub health : AgentHealth
  pub rung1 : Rung1Class
  pub rung2 : Rung2Verdict
  pub rung3 : Rung3State
  pub circuit_breaker_tripped : Bool

pub record KillDecision : Type 0 where
  pub kill : Bool
  pub unilateral : Bool
  pub reason : Text

unfoldable pub rung0_suspect : AgentHealth → Bool
rung0_suspect stdin_block = true
rung0_suspect cpu_spin = true
rung0_suspect oom = true
rung0_suspect hung_child = true
rung0_suspect _ = false

-- `h != HealthOK && h != HealthUnknown`
is_unwell : AgentHealth → Bool
is_unwell ok = false
is_unwell unknown = false
is_unwell _ = true

unfoldable pub rung1_suspect : Rung1Class → AgentHealth → Bool
unfolding is_unwell
rung1_suspect spinning h = true
rung1_suspect frozen h = is_unwell h
rung1_suspect _ h = false

unfoldable pub is_stalled : Rung2Verdict → Bool
is_stalled stalled = true
is_stalled _ = false

unfoldable pub two_rung : Text → KillDecision
two_rung reason = record { kill = true; unilateral = false; reason = reason }

unfoldable pub unilateral_kill : Text → KillDecision
unilateral_kill reason = record { kill = true; unilateral = true; reason = reason }

unfoldable pub no_kill : Text → KillDecision
no_kill reason = record { kill = false; unilateral = false; reason = reason }

-- `if rs.Rung3.SoftCrossed { switch … }`
unfoldable pub soft_deadline_arm : RungSet → KillDecision
unfolding two_rung no_kill
soft_deadline_arm rs =
    if is_stalled rs.rung2
    then two_rung (bytes "soft deadline (Rung-3) + Rung-2 stalled")
    else if rung1_suspect rs.rung1 rs.health
    then two_rung (bytes "soft deadline (Rung-3) + Rung-1 suspicion")
    else if rung0_suspect rs.health
    then two_rung (bytes "soft deadline (Rung-3) + Rung-0 hint")
    else no_kill (bytes "soft deadline crossed but no second rung (Rung-2 abstains)")

unfoldable pub evaluate_kill : RungSet → KillDecision
unfolding unilateral_kill two_rung no_kill soft_deadline_arm
evaluate_kill rs =
    if rs.rung3.absolute_cap
    then unilateral_kill (bytes "absolute lease cap (Rung-3)")
    else if rs.rung3.heartbeat_stale
    then unilateral_kill (bytes "heartbeat stale (worker presumed dead)")
    else if rs.circuit_breaker_tripped
    then no_kill (bytes "Rung-2 circuit breaker tripped: deadlines widened")
    else if rs.rung3.soft_crossed
    then soft_deadline_arm rs
    else if is_stalled rs.rung2 && (rung1_suspect rs.rung1 rs.health || rung0_suspect rs.health)
    then two_rung (bytes "Rung-2 stalled + worker-reported suspicion")
    else no_kill (bytes "no two-rung agreement")

pub data FastPath : Type 0 where
  no_fast_path fast_cancel fast_failed : FastPath

is_zombie : AgentHealth → Bool
is_zombie zombie = true
is_zombie _ = false

unfoldable pub evaluate_fast_path : AgentHealth → Bool → Bool → FastPath
unfolding is_zombie
evaluate_fast_path health awaiting_input exited =
    if exited || is_zombie health
    then fast_failed
    else if awaiting_input
    then fast_cancel
    else no_fast_path
