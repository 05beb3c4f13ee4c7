-- ===== src/Examples/Replay.antt =====
-- The theorems on `Fold` of internal/ledger/ledger.go, applied to a sample ledger.
use flowbee.Base.{ℕ, ◌≡◌, refl, List, [], ◌∷◌, some}
use flowbee.Base.Text.{bytes}
use flowbee.Base.Int.{pos}
use flowbee.Job.State.{State, building, code_review, mergeable}
use flowbee.Job.Record.{zero_job}
use flowbee.Ledger.Event.{Event, EventKind, Payload, zero_payload}
use flowbee.Ledger.Cases.Build.{verdict_minted_case, bind_verdict}
use flowbee.Ledger.Cases.Lease.{cost_metered_case}
use flowbee.Ledger.Fold.{
  fold, fold_from, apply_event, fold_kind, sync_notes, sync_gate, sync_caps, sync_role,
  is_human_gate,
}
use flowbee.Ledger.Fold.Invariants.{IsConsistent, fold-IsConsistent}
use flowbee.Ledger.Fold.Provenance.{Mints, fold-verdict}
use flowbee.Ledger.Fold.Audit.{IsBare}
use flowbee.Examples.Samples.{self_merge_verdict}

abbrev pub event : ℕ → EventKind → State → State → Payload → Event
event n kind from to payload = record {
  job_id = bytes "job-1";
  job_seq = n;
  kind = kind;
  from_state = from;
  to_state = to;
  lease_epoch = 3;
  actor = bytes "system";
  created_at = n;
  payload = payload;
}

abbrev metering : Event
metering =
    event 1 EventKind.cost_metered building building
      (record zero_payload { cost_micro_usd_delta = pos 250 })

abbrev minting : Event
minting =
    event 2 EventKind.verdict_minted code_review mergeable
      (record zero_payload { verdict = some self_merge_verdict })

abbrev beat : Event
beat = event 3 EventKind.heartbeat mergeable mergeable zero_payload

abbrev sample_ledger : List Event
sample_ledger = metering ∷ minting ∷ []

sample_fold : (fold sample_ledger).verdict ≡ some self_merge_verdict
unfolding fold fold_from apply_event fold_kind verdict_minted_case bind_verdict sync_caps sync_role
    sync_gate sync_notes is_human_gate zero_payload zero_job cost_metered_case
sample_fold = refl

fold-verdict_example : Mints self_merge_verdict sample_ledger
fold-verdict_example = fold-verdict sample_ledger self_merge_verdict sample_fold

fold-IsConsistent_example : IsConsistent (fold sample_ledger)
fold-IsConsistent_example = fold-IsConsistent sample_ledger

beat-IsBare : IsBare beat
unfolding zero_payload
beat-IsBare = (refl, refl, refl)
