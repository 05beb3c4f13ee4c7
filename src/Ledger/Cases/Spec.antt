-- ===== src/Ledger/Cases/Spec.antt =====
-- The cases of `Fold` for a spec: authoring, sign-off, amendment and design forks.
use flowbee.Base.{if◌then◌else◌, none, []}
use flowbee.Base.Text.{is_empty}
use flowbee.Job.State.{escalation_design}
use flowbee.Job.Record.{Job}
use flowbee.Ledger.Event.{Event}
use flowbee.Ledger.Cases.Shared.{clear_lease, set_if, stage_review}

unfoldable pub spec_authored_case : Event → Job → Job
unfolding clear_lease set_if
spec_authored_case e j = clear_lease (record j {
  state = e.to_state;
  stage = stage_review;
  spec_content_hash = e.payload.spec_content_hash;
  spec_version = e.payload.spec_version;
  spec_text = set_if e.payload.spec_text j.spec_text;
})

unfoldable pub spec_signoff_minted_case : Event → Job → Job
unfolding clear_lease
spec_signoff_minted_case e j =
    clear_lease (record j { state = e.to_state; spec_signoff = e.payload.spec_signoff })

-- `if e.Payload.SpecContentHash != "" { hash and version ride the event }`
unfoldable pub set_spec_hash : Event → Job → Job
set_spec_hash e j = if is_empty e.payload.spec_content_hash then j else record j {
  spec_content_hash = e.payload.spec_content_hash;
  spec_version = e.payload.spec_version;
}

unfoldable pub spec_superseded_case : Event → Job → Job
unfolding clear_lease set_spec_hash
spec_superseded_case e j =
    clear_lease (set_spec_hash e (record j { state = e.to_state; spec_signoff = none }))

unfoldable pub spec_amended_case : Event → Job → Job
unfolding clear_lease set_spec_hash set_if
spec_amended_case e j = clear_lease (
    set_spec_hash e (record j {
      state = e.to_state;
      spec_text = set_if e.payload.spec_text j.spec_text;
      spec_signoff = e.payload.spec_signoff;
    }))

unfoldable pub spec_needs_design_case : Event → Job → Job
unfolding clear_lease
spec_needs_design_case e j =
    clear_lease (record j { state = e.to_state; escalation_reason = escalation_design })

unfoldable pub design_resolved_case : Event → Job → Job
unfolding set_spec_hash
design_resolved_case e j = set_spec_hash e (record j { state = e.to_state; escalation_reason = [] })
