-- ===== src/Engine/Fencing.antt =====
-- The fence of internal/engine/engine.go: what a stale epoch gets, and what a refusal leaves alone.
use flowbee.Base.{ℕ, ◌≡◌, ◌≢◌, Option, none, some, arith}
use flowbee.Base.Text.{Text, bytes}
use flowbee.Engine.{decide}
use flowbee.Engine.Types.{
  EngineState, EngineEvent, heartbeat, liveness_verdict, work_result, release, review_claim,
  merge_dispatch, cost_meter, spec_review_claim, Decision, rejected, fenced,
}
use flowbee.Engine.Lease.{decide_heartbeat, decide_cost_meter, decide_work_result, decide_release}
use flowbee.Engine.Review.{decide_review_claim, decide_spec_review_claim}

-- The epoch that a worker's call carries; the runtime's own two events carry none.
abbrev pub claimed_epoch : EngineEvent → Option ℕ
claimed_epoch (heartbeat h) = some h.epoch
claimed_epoch (liveness_verdict l) = none
claimed_epoch (work_result epoch) = some epoch
claimed_epoch (release epoch) = some epoch
claimed_epoch (review_claim c) = some c.epoch
claimed_epoch merge_dispatch = none
claimed_epoch (cost_meter epoch) = some epoch
claimed_epoch (spec_review_claim c) = some c.epoch

fenced_stale :
    (claimed live : ℕ) (rest : Decision)
    → claimed ≢ live
    → fenced claimed live rest ≡ rejected (bytes "stale lease epoch")
unfolding fenced
fenced_stale claimed live rest h = ground arith

-- A zombie is powerless: every worker call that carries another epoch than the live one is rejected,
-- with no transition, no mint and no directive.
pub decide_stale :
    (sha256 : Text → Text) (s : EngineState) (ev : EngineEvent) (n : ℕ)
    → claimed_epoch ev ≡ some n
    → n ≢ s.epoch
    → decide sha256 s ev ≡ rejected (bytes "stale lease epoch")
unfolding decide decide_heartbeat decide_cost_meter decide_work_result decide_release
    decide_review_claim decide_spec_review_claim
decide_stale sha256 s (heartbeat h) n e stale = fenced_stale h.epoch s.epoch _ (ground arith)
decide_stale sha256 s (liveness_verdict l) n e stale = absurd (ground arith)
decide_stale sha256 s (work_result epoch) n e stale = fenced_stale epoch s.epoch _ (ground arith)
decide_stale sha256 s (release epoch) n e stale = fenced_stale epoch s.epoch _ (ground arith)
decide_stale sha256 s (review_claim c) n e stale = fenced_stale c.epoch s.epoch _ (ground arith)
decide_stale sha256 s merge_dispatch n e stale = absurd (ground arith)
decide_stale sha256 s (cost_meter epoch) n e stale = fenced_stale epoch s.epoch _ (ground arith)
decide_stale sha256 s (spec_review_claim c) n e stale =
    fenced_stale c.epoch s.epoch _ (ground arith)
