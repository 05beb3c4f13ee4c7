-- ===== src/Ledger/Cases/Lease.antt =====
-- The cases of `Fold` that grant, end and revoke a lease, and that meter its cost.
use flowbee.Base.{◌+◌, true, if◌then◌else◌}
use flowbee.Base.Int.{◌+ℤ◌}
use flowbee.Job.State.{Role, code_reviewer, no_role, role_caps}
use flowbee.Job.Record.{Job}
use flowbee.Ledger.Event.{Event}
use flowbee.Ledger.Cases.Shared.{clear_lease, is_ready}

unfoldable pub lease_claimed_case : Event → Job → Job
lease_claimed_case e j = record j {
  state = e.to_state;
  lease_epoch = e.lease_epoch;
  lease_id = e.payload.lease_id;
  bound_identity = e.payload.bound_identity;
  bound_model_family = e.payload.bound_model_family;
}

unfoldable pub result_accepted_case : Event → Job → Job
unfolding clear_lease
result_accepted_case e j = clear_lease (record j {
  state = e.to_state;
  required_capabilities = role_caps code_reviewer;
  head_sha = e.payload.head_sha;
})

unfoldable pub lease_released_case : Event → Job → Job
unfolding clear_lease
lease_released_case e j =
    clear_lease (record j { state = e.to_state; attempts = j.attempts + e.payload.attempts_delta })

-- The role of a re-armed build rides the event.
unfoldable pub rearm_role : Event → Role → Role
unfolding is_ready
rearm_role e old =
    if is_ready e.to_state then elim e.payload.role [ no_role ↦ old | r ↦ r ] else old

unfoldable pub lease_revoked_case : Event → Job → Job
unfolding clear_lease rearm_role
lease_revoked_case e j = clear_lease (record j {
  state = e.to_state;
  lease_epoch = e.lease_epoch;
  attempts = j.attempts + e.payload.attempts_delta;
  stall_revocations = j.stall_revocations + e.payload.stall_revocations_delta;
  role = rearm_role e j.role;
})

unfoldable pub stall_escalated_case : Event → Job → Job
unfolding clear_lease
stall_escalated_case e j = clear_lease (record j {
  state = e.to_state;
  lease_epoch = e.lease_epoch;
  stall_revocations = j.stall_revocations + e.payload.stall_revocations_delta;
})

unfoldable pub agent_exited_case : Event → Job → Job
unfolding clear_lease
agent_exited_case e j = clear_lease (record j { state = e.to_state; lease_epoch = e.lease_epoch })

unfoldable pub fast_cancelled_case : Event → Job → Job
unfolding clear_lease
fast_cancelled_case e j = clear_lease (record j {
  state = e.to_state;
  lease_epoch = e.lease_epoch;
  attempts = j.attempts + e.payload.attempts_delta;
})

unfoldable pub cost_metered_case : Event → Job → Job
cost_metered_case e j = record j {
  cost_tokens_in = j.cost_tokens_in +ℤ e.payload.cost_tokens_in_delta;
  cost_tokens_out = j.cost_tokens_out +ℤ e.payload.cost_tokens_out_delta;
  cost_micro_usd = j.cost_micro_usd +ℤ e.payload.cost_micro_usd_delta;
}

unfoldable pub cost_escalated_case : Event → Job → Job
unfolding clear_lease cost_metered_case
cost_escalated_case e j =
    let m = cost_metered_case e j in
    clear_lease (record m {
      state = e.to_state;
      lease_epoch = e.lease_epoch;
      over_budget = true;
      escalation_reason = e.payload.escalation_reason;
    })
