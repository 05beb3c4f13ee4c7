-- ===== src/Liveness/Kills.antt =====
-- The two-rung rule of internal/liveness/liveness.go, stated by counting votes.
use flowbee.Base.{ℕ, ◌+◌, ◌≤◌, ◌≡◌, ◌⊎◌, ◌↔◌, Bool, true, false, ◌||◌, if◌then◌else◌, arith}
use flowbee.Liveness.{
  RungSet, ok, unknown, frozen, rung0_suspect, rung1_suspect, is_stalled, evaluate_kill,
}

abbrev vote : Bool → ℕ
vote b = if b then 1 else 0

-- The rungs that a worker cannot forge: the external oracle and the clock's soft deadline.
pub ungameable_votes : RungSet → ℕ
ungameable_votes rs = vote (is_stalled rs.rung2) + vote rs.rung3.soft_crossed

-- The two rungs that a worker reports count as one vote together: agreement among them is one
-- source's word.
pub worker_votes : RungSet → ℕ
worker_votes rs = vote (rung0_suspect rs.health || rung1_suspect rs.rung1 rs.health)

abbrev pub IsClockTruth : RungSet → Type 0
IsClockTruth rs = (rs.rung3.absolute_cap ≡ true) ⊎ (rs.rung3.heartbeat_stale ≡ true)

-- The whole truth table. A lease is killed exactly when a clock truth holds (the absolute cap, or a
-- stale heartbeat), or the breaker is not tripped and there are two votes, at least one of them
-- from a rung that no worker can forge.
pub evaluate_kill_iff :
    (rs : RungSet)
    → ((evaluate_kill rs).kill ≡ true) ↔ (
        IsClockTruth rs
        ⊎ ((rs.circuit_breaker_tripped ≡ false)
            × (1 ≤ ungameable_votes rs)
            × (2 ≤ ungameable_votes rs + worker_votes rs)))
unfolding evaluate_kill ungameable_votes worker_votes
evaluate_kill_iff rs = ground arith

-- The kill is unilateral exactly when a clock truth holds, and it then kills.
pub unilateral_iff :
    (rs : RungSet)
    → (((evaluate_kill rs).unilateral ≡ true) ↔ IsClockTruth rs)
      × ((evaluate_kill rs).unilateral ≡ true → (evaluate_kill rs).kill ≡ true)
unfolding evaluate_kill
unilateral_iff rs = ground arith

-- Thinking is not stalling: short of a clock truth and of the oracle's word, a frozen agent in
-- health that is ok or not reported is never killed, whatever deadline it crossed.
pub frozen_survives :
    (rs : RungSet)
    → rs.rung1 ≡ frozen
    → (rs.health ≡ ok) ⊎ (rs.health ≡ unknown)
    → is_stalled rs.rung2 ≡ false
    → ¬ IsClockTruth rs
    → (evaluate_kill rs).kill ≡ false
unfolding evaluate_kill rung1_suspect rung0_suspect
frozen_survives rs f h s c = ground arith
