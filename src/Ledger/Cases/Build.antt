-- ===== src/Ledger/Cases/Build.antt =====
-- The cases of `Fold` for a build: review, merge, supersession, conflicts and requeues.
use flowbee.Base.{◌+◌, if◌then◌else◌, Option, none, some, []}
use flowbee.Base.Text.{bytes}
use flowbee.Job.State.{eng_worker, code_reviewer, conflict_resolver, role_caps}
use flowbee.Job.Verdict.{Verdict}
use flowbee.Job.Record.{Job}
use flowbee.Ledger.Event.{Event}
use flowbee.Ledger.Cases.Shared.{
  clear_lease, is_spec_authoring, set_if, stage_build, stage_spec, stage_review,
}

-- The operator's requeue: a fresh budget, no verdict, no head.
unfoldable pub reset_counters : Event → Job → Job
unfolding is_spec_authoring
reset_counters e j = record j {
  attempts = 0;
  bounces = 0;
  stall_revocations = 0;
  head_sha = [];
  verdict = none;
  stage = if is_spec_authoring e.to_state then stage_spec else stage_build;
}

unfoldable pub state_changed_case : Event → Job → Job
unfolding reset_counters
state_changed_case e j =
    let moved = record j { state = e.to_state; lease_epoch = e.lease_epoch } in
    if e.payload.reset_counters then reset_counters e moved else moved

unfoldable pub janitor_unblocked_case : Event → Job → Job
unfolding clear_lease is_spec_authoring
janitor_unblocked_case e j = clear_lease (record j {
  state = e.to_state;
  lease_epoch = e.lease_epoch;
  unblock_attempts = j.unblock_attempts + 1;
  last_progress_sha = e.payload.unblock_sha;
  head_sha = [];
  verdict = none;
  stuck_hint = e.payload.stuck_hint;
  stage = if is_spec_authoring e.to_state then stage_spec else stage_build;
  enqueued_at = if is_spec_authoring e.to_state then j.enqueued_at else e.created_at;
})

unfoldable pub deps_cleared_case : Event → Job → Job
deps_cleared_case e j = record j { state = e.to_state; enqueued_at = e.created_at; blocked_by = [] }

unfoldable pub job_completed_case : Event → Job → Job
unfolding set_if
job_completed_case e j = record j {
  state = e.to_state;
  merge_provenance = set_if e.payload.merge_provenance j.merge_provenance;
}

unfoldable pub review_claimed_case : Event → Job → Job
review_claimed_case e j = record j {
  state = e.to_state;
  role = code_reviewer;
  lease_epoch = e.lease_epoch;
  lease_id = e.payload.lease_id;
  bound_identity = e.payload.bound_identity;
  bound_model_family = e.payload.bound_model_family;
}

-- The verdict binds the SHA pair that it carries.
unfoldable pub bind_verdict : Option Verdict → Job → Job
unfolding set_if
bind_verdict none j = record j { verdict = none }
bind_verdict (some v) j = record j {
  verdict = some v;
  head_sha = v.head_sha;
  base_sha = set_if v.base_sha j.base_sha;
}

unfoldable pub verdict_minted_case : Event → Job → Job
unfolding clear_lease bind_verdict
verdict_minted_case e j =
    clear_lease (bind_verdict e.payload.verdict (record j { state = e.to_state }))

unfoldable pub review_bounced_case : Event → Job → Job
unfolding clear_lease
review_bounced_case e j = clear_lease (record j {
  state = e.to_state;
  bounces = j.bounces + e.payload.bounces_delta;
  role = eng_worker;
  required_capabilities = role_caps eng_worker;
  enqueued_at = e.created_at;
})

unfoldable pub review_approved_case : Event → Job → Job
unfolding clear_lease set_if
review_approved_case e j = clear_lease (record j {
  state = e.to_state;
  role = eng_worker;
  required_capabilities = role_caps code_reviewer;
  head_sha = set_if e.payload.head_sha j.head_sha;
})

unfoldable pub bounce_case : Event → Job → Job
unfolding clear_lease
bounce_case e j =
    clear_lease (record j { state = e.to_state; bounces = j.bounces + e.payload.bounces_delta })

unfoldable pub superseded_case : Event → Job → Job
unfolding clear_lease set_if
superseded_case e j = clear_lease (record j {
  state = e.to_state;
  role = eng_worker;
  stage = stage_build;
  required_capabilities = role_caps eng_worker;
  lease_epoch = e.lease_epoch;
  verdict = none;
  head_sha = [];
  base_sha = set_if e.payload.base_sha j.base_sha;
  enqueued_at = e.created_at;
  bound_lens = [];
})

unfoldable pub adopt_rearmed_case : Event → Job → Job
unfolding clear_lease
adopt_rearmed_case e j = clear_lease (record j {
  state = e.to_state;
  role = code_reviewer;
  stage = stage_review;
  required_capabilities = role_caps code_reviewer;
  lease_epoch = e.lease_epoch;
  verdict = none;
  base_sha = e.payload.base_sha;
  head_sha = e.payload.head_sha;
  enqueued_at = e.created_at;
  bound_lens = [];
})

unfoldable pub rebased_case : Event → Job → Job
unfolding clear_lease set_if
rebased_case e j = clear_lease (record j {
  state = e.to_state;
  role = eng_worker;
  stage = stage_build;
  required_capabilities = role_caps code_reviewer;
  lease_epoch = e.lease_epoch;
  verdict = none;
  head_sha = e.payload.head_sha;
  base_sha = set_if e.payload.base_sha j.base_sha;
})

unfoldable pub conflict_detected_case : Event → Job → Job
unfolding clear_lease set_if
conflict_detected_case e j = clear_lease (record j {
  state = e.to_state;
  role = conflict_resolver;
  stage = bytes "resolve_conflict";
  required_capabilities = role_caps conflict_resolver;
  lease_epoch = e.lease_epoch;
  verdict = none;
  base_sha = set_if e.payload.base_sha j.base_sha;
  enqueued_at = e.created_at;
})

unfoldable pub conflict_resolved_case : Event → Job → Job
unfolding clear_lease
conflict_resolved_case e j = clear_lease (record j {
  state = e.to_state;
  role = eng_worker;
  stage = stage_build;
  required_capabilities = role_caps code_reviewer;
  verdict = none;
  head_sha = e.payload.head_sha;
})
