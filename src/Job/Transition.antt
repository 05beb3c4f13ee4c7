-- ===== src/Job/Transition.antt =====
-- internal/job/transition.go: the state machine as a table. `none` is `ErrIllegalTransition`.
pub mod Runs
use flowbee.Base.{Option, none, some}
use flowbee.Job.State.{
  State, spec_authoring, spec_review, ready, leased, building, review_pending, code_review,
  mergeable, merging, merge_handoff, done, blocked, needs_human, superseded, cancelled, failed,
  needs_design, backlog, quiescent, resolving_conflict,
}

pub data Trigger : Type 0 where
  claimed work_started result_received released lease_expired_retry : Trigger
  lease_expired_exhausted deps_cleared completed review_claimed review_started approved : Trigger
  bounce bounce_exhausted handoff self_merge spec_review_claimed spec_signed_off : Trigger
  spec_superseded spec_authored spec_amended spec_needs_design design_resolved : Trigger
  promoted_to_spec promoted_to_ready adopted_for_review stall_revoked_retry : Trigger
  stall_revoked_exhausted lease_capped_retry lease_capped_exhausted agent_exited : Trigger
  awaiting_input_cancel : Trigger

unfoldable pub next : State → Trigger → Option State
next ready claimed = some leased
next leased work_started = some building
next building result_received = some review_pending
next leased released = some ready
next building released = some ready
next leased lease_expired_retry = some ready
next building lease_expired_retry = some ready
next leased lease_expired_exhausted = some needs_human
next building lease_expired_exhausted = some needs_human
next blocked deps_cleared = some ready
next review_pending completed = some done
next review_pending review_claimed = some code_review
next code_review approved = some mergeable
next code_review bounce = some ready
next code_review bounce_exhausted = some needs_human
next code_review released = some review_pending
next code_review lease_expired_retry = some review_pending
next mergeable handoff = some merge_handoff
next mergeable self_merge = some merging
next spec_authoring spec_authored = some spec_review
next spec_review spec_signed_off = some done
next spec_review bounce = some spec_authoring
next spec_review bounce_exhausted = some needs_human
next spec_review spec_superseded = some spec_authoring
next spec_review released = some spec_authoring
next spec_review lease_expired_retry = some spec_authoring
next spec_review spec_amended = some done
next spec_review spec_needs_design = some needs_design
next resolving_conflict released = some resolving_conflict
next resolving_conflict lease_expired_retry = some resolving_conflict
next needs_design design_resolved = some spec_review
next backlog promoted_to_spec = some spec_authoring
next backlog promoted_to_ready = some ready
next quiescent adopted_for_review = some spec_review
next leased stall_revoked_retry = some ready
next building stall_revoked_retry = some ready
next code_review stall_revoked_retry = some review_pending
next spec_authoring stall_revoked_retry = some spec_authoring
next spec_review stall_revoked_retry = some spec_authoring
next leased stall_revoked_exhausted = some needs_human
next building stall_revoked_exhausted = some needs_human
next code_review stall_revoked_exhausted = some needs_human
next spec_authoring stall_revoked_exhausted = some needs_human
next spec_review stall_revoked_exhausted = some needs_human
next leased lease_capped_retry = some ready
next building lease_capped_retry = some ready
next code_review lease_capped_retry = some review_pending
next spec_authoring lease_capped_retry = some spec_authoring
next spec_review lease_capped_retry = some spec_authoring
next leased lease_capped_exhausted = some needs_human
next building lease_capped_exhausted = some needs_human
next code_review lease_capped_exhausted = some needs_human
next spec_authoring lease_capped_exhausted = some needs_human
next spec_review lease_capped_exhausted = some needs_human
next leased agent_exited = some failed
next building agent_exited = some failed
next code_review agent_exited = some failed
next spec_authoring agent_exited = some failed
next spec_review agent_exited = some failed
next leased awaiting_input_cancel = some ready
next building awaiting_input_cancel = some ready
next code_review awaiting_input_cancel = some review_pending
next spec_authoring awaiting_input_cancel = some spec_authoring
next spec_review awaiting_input_cancel = some spec_authoring
next failed lease_expired_retry = some ready
next _ _ = none
