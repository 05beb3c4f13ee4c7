-- ===== src/Engine.antt =====
-- internal/engine/engine.go: `Decide`, the deterministic core, by the kind of event it is given.
pub mod Types
pub mod Lease
pub mod Review
pub mod Fencing
pub mod Edges
pub mod Minting
pub mod OffTable
use flowbee.Base.{List, []}
use flowbee.Base.Text.{Text}
use Types.{
  EngineState, EngineEvent, heartbeat, liveness_verdict, work_result, release, review_claim,
  merge_dispatch, cost_meter, spec_review_claim, Decision,
}
use Lease.{decide_heartbeat, decide_cost_meter, decide_liveness, decide_work_result, decide_release}
use Review.{decide_review_claim, decide_spec_review_claim, decide_merge_dispatch}

unfoldable pub decide : (Text → Text) → EngineState → EngineEvent → Decision
decide sha256 s (heartbeat h) = decide_heartbeat s h
decide sha256 s (cost_meter epoch) = decide_cost_meter s epoch
decide sha256 s (liveness_verdict l) = decide_liveness s l
decide sha256 s (work_result epoch) = decide_work_result s epoch
decide sha256 s (release epoch) = decide_release s epoch
decide sha256 s (review_claim c) = decide_review_claim sha256 s c
decide sha256 s (spec_review_claim c) = decide_spec_review_claim sha256 s c
decide sha256 s merge_dispatch = decide_merge_dispatch sha256 s
