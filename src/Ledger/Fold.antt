-- ===== src/Ledger/Fold.antt =====
-- internal/ledger/ledger.go: `Fold`, which replays a job's events into its projection.
pub mod Invariants
pub mod Provenance
pub mod Meter
pub mod Audit
use flowbee.Base.{Bool, true, false, if◌then◌else◌, List, [], ◌∷◌}
use flowbee.Base.Text.{Text, is_empty}
use flowbee.Job.State.{
  State, ready, spec_authoring, spec_review, needs_human, needs_design, resolving_conflict,
  spec_author, spec_reviewer, eng_worker, conflict_resolver, Kind, build, role_caps,
}
use flowbee.Job.Record.{Job, zero_job}
use flowbee.Ledger.Event.{Event, EventKind}
use flowbee.Ledger.Event.EventKind.{
  job_created, lease_claimed, worker_started, heartbeat, result_accepted, lease_released,
  state_changed, deps_cleared, job_completed, no_eligible_worker, review_claimed, verdict_claim,
  verdict_minted, review_bounced, review_approved, bounce_exhausted, merge_handoff, merge_started,
  facts_reconciled, superseded, adopt_rearmed, base_refreshed, spec_authored, spec_claim,
  spec_signoff_minted, spec_bounced, spec_superseded, issue_materialized, spec_amended,
  spec_needs_design, design_resolved, epic_reviewed, pr_opened, adopted, backlogged, promoted,
  issue_adopted, tracking_labelled, lease_revoked, stall_escalated, agent_exited, fast_cancelled,
  cost_metered, cost_escalated, epoch_promoted, compensated, unattended_merged, conflict_detected,
  rebased, conflict_resolved, stacked_rebased, janitor_unblocked, test_ci_recorded,
}
use flowbee.Ledger.Cases.Lease.{
  lease_claimed_case, result_accepted_case, lease_released_case, lease_revoked_case,
  stall_escalated_case, agent_exited_case, fast_cancelled_case, cost_metered_case,
  cost_escalated_case,
}
use flowbee.Ledger.Cases.Build.{
  state_changed_case, janitor_unblocked_case, deps_cleared_case, job_completed_case,
  review_claimed_case, verdict_minted_case, review_bounced_case, review_approved_case, bounce_case,
  superseded_case, adopt_rearmed_case, rebased_case, conflict_detected_case, conflict_resolved_case,
}
use flowbee.Ledger.Cases.Spec.{
  spec_authored_case, spec_signoff_minted_case, spec_superseded_case, spec_amended_case,
  spec_needs_design_case, design_resolved_case,
}
use flowbee.Ledger.Cases.Board.{
  job_created_case, pr_opened_case, adopted_case, backlogged_case, promoted_case,
  issue_adopted_case,
}
use flowbee.Ledger.Cases.Shared.{set_if}

-- `switch e.Kind`. The kinds that the last clause takes are recorded for audit and fold to nothing:
-- heartbeat, no_eligible_worker, verdict_claim, facts_reconciled, spec_claim, tracking_labelled,
-- compensated, stacked_rebased and test_ci_recorded.
unfoldable pub fold_kind : EventKind → Event → Job → Job
unfolding job_created_case lease_claimed_case result_accepted_case lease_released_case
    lease_revoked_case stall_escalated_case agent_exited_case fast_cancelled_case cost_metered_case
    cost_escalated_case state_changed_case janitor_unblocked_case deps_cleared_case
    job_completed_case review_claimed_case verdict_minted_case review_bounced_case
    review_approved_case bounce_case superseded_case adopt_rearmed_case rebased_case
    conflict_detected_case conflict_resolved_case spec_authored_case spec_signoff_minted_case
    spec_superseded_case spec_amended_case spec_needs_design_case design_resolved_case
    pr_opened_case adopted_case backlogged_case promoted_case issue_adopted_case
fold_kind job_created e j = job_created_case e j
fold_kind lease_claimed e j = lease_claimed_case e j
fold_kind worker_started e j = record j { state = e.to_state }
fold_kind result_accepted e j = result_accepted_case e j
fold_kind lease_released e j = lease_released_case e j
fold_kind state_changed e j = state_changed_case e j
fold_kind janitor_unblocked e j = janitor_unblocked_case e j
fold_kind base_refreshed e j = record j { base_sha = e.payload.base_sha }
fold_kind deps_cleared e j = deps_cleared_case e j
fold_kind job_completed e j = job_completed_case e j
fold_kind review_claimed e j = review_claimed_case e j
fold_kind verdict_minted e j = verdict_minted_case e j
fold_kind review_bounced e j = review_bounced_case e j
fold_kind review_approved e j = review_approved_case e j
fold_kind bounce_exhausted e j = bounce_case e j
fold_kind merge_handoff e j = record j { state = e.to_state }
fold_kind merge_started e j = record j { state = e.to_state }
fold_kind superseded e j = superseded_case e j
fold_kind adopt_rearmed e j = adopt_rearmed_case e j
fold_kind spec_authored e j = spec_authored_case e j
fold_kind spec_signoff_minted e j = spec_signoff_minted_case e j
fold_kind spec_bounced e j = bounce_case e j
fold_kind spec_superseded e j = spec_superseded_case e j
fold_kind spec_amended e j = spec_amended_case e j
fold_kind spec_needs_design e j = spec_needs_design_case e j
fold_kind design_resolved e j = design_resolved_case e j
fold_kind epic_reviewed e j = record j { epic_reviewed = true }
fold_kind issue_materialized e j = record j { issue_num = e.payload.issue_number }
fold_kind pr_opened e j = pr_opened_case e j
fold_kind lease_revoked e j = lease_revoked_case e j
fold_kind stall_escalated e j = stall_escalated_case e j
fold_kind agent_exited e j = agent_exited_case e j
fold_kind fast_cancelled e j = fast_cancelled_case e j
fold_kind cost_metered e j = cost_metered_case e j
fold_kind cost_escalated e j = cost_escalated_case e j
fold_kind epoch_promoted e j = record j { build_epoch = e.payload.build_epoch }
fold_kind unattended_merged e j = record j { merge_provenance = e.payload.merge_provenance }
fold_kind adopted e j = adopted_case e j
fold_kind backlogged e j = backlogged_case e j
fold_kind promoted e j = promoted_case e j
fold_kind issue_adopted e j = issue_adopted_case e j
fold_kind rebased e j = rebased_case e j
fold_kind conflict_detected e j = conflict_detected_case e j
fold_kind conflict_resolved e j = conflict_resolved_case e j
fold_kind _ e j = j

-- The review's findings and the failed checks ride whatever event carries them.
unfoldable pub sync_notes : Event → Job → Job
unfolding set_if
sync_notes e j = record j {
  last_review_notes = set_if e.payload.review_notes j.last_review_notes;
  last_ci_failures = set_if e.payload.ci_failures j.last_ci_failures;
}

unfoldable pub is_human_gate : State → Bool
is_human_gate needs_human = true
is_human_gate needs_design = true
is_human_gate _ = false

-- The escalation reason and the over-budget mark outlive no human-gate state.
unfoldable pub sync_gate : Event → Job → Job
unfolding set_if is_human_gate
sync_gate e j =
    if is_human_gate j.state
    then record j { escalation_reason = set_if e.payload.escalation_reason j.escalation_reason }
    else record j { escalation_reason = []; over_budget = false }

-- The role that a state determines, if it determines one.
unfoldable pub sync_role : State → Kind → Job → Job
sync_role ready build j = record j {
  role = eng_worker;
  required_capabilities = role_caps eng_worker;
}
sync_role spec_authoring _ j = record j {
  role = spec_author;
  required_capabilities = role_caps spec_author;
}
sync_role spec_review _ j = record j {
  role = spec_reviewer;
  required_capabilities = role_caps spec_reviewer;
}
sync_role resolving_conflict _ j = record j {
  role = conflict_resolver;
  required_capabilities = role_caps conflict_resolver;
}
sync_role _ _ j = j

unfoldable pub sync_caps : Job → Job
unfolding sync_role
sync_caps j = sync_role j.state j.kind j

-- One round of the loop.
unfoldable pub apply_event : Job → Event → Job
apply_event j e =
    let folded = sync_caps (sync_gate e (sync_notes e (fold_kind e.kind e j))) in
    record folded { job_seq = e.job_seq }

unfoldable pub fold_from : Job → List Event → Job
fold_from j [] = j
fold_from j (e ∷ es) = fold_from (apply_event j e) es

unfoldable pub fold : List Event → Job
unfolding fold_from
fold es = fold_from zero_job es
