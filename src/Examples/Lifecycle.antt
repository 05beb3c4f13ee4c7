-- ===== src/Examples/Lifecycle.antt =====
-- The theorems on the transactions of internal/store, applied to a build that is claimed, returned with its
-- result and approved.
use flowbee.Base.{◌≡◌, ◌↔◌, ◌+◌, refl, false}
use flowbee.Store.Lifecycle.Steps.{Step, Reach, here, next, claims, results, claims_review, stalls}
use flowbee.Store.Tables.{Tables, TxError, lost_race, committed, rolled_back}
use flowbee.Base.Lists.{any}
use flowbee.Examples.Samples.{digest}
use flowbee.Base.Text.{bytes, is_empty}
use flowbee.Engine.Review.{is_mergeable}
use flowbee.Examples.Build.{
  answer, approved_build, approving, born-IsSound, built, claimed, commits, gave, giving, inputs,
  judged, judging, no_response, nobody, opened, opening, review_claimed, reviewing, taken, taking,
  took, verdict_answer,
}
use flowbee.Job.Record.{zero_job}
use flowbee.Job.State.{has_active_lease}
use flowbee.Job.Verdict.{Verdict}
use flowbee.Ledger.Cases.Board.{job_created_case}
use flowbee.Ledger.Cases.Shared.{is_ready}
use flowbee.Ledger.Event.{zero_payload}
use flowbee.Ledger.Fold.{
  apply_event, fold, fold_from, fold_kind, is_human_gate, sync_caps, sync_gate, sync_notes,
  sync_role,
}
use flowbee.Store.Claim.{Lease, claim_ready_job}
use flowbee.Store.Lifecycle.Claims.{claim_ready_job_exclusive, claim_ready_job_iff, IsClaimable}
use flowbee.Store.Lifecycle.Effects.{epoch_of}
use flowbee.Store.Lifecycle.Leases.{IsAudited, Reach-IsAudited}
use flowbee.Store.Lifecycle.Mints.{IsQuorate, fresh_review-IsQuorate}
use flowbee.Store.Lifecycle.Repeats.{IsAnswered, store_result_repeats}
use flowbee.Store.Lifecycle.Soundness.{IsSound}
use flowbee.Store.Lifecycle.Steps.{Reach-IsSound}
use flowbee.Store.Result.{store_result}
use flowbee.Store.Review.{claim_review_job}
use flowbee.Store.Row.Replay.{IsReplayed}
use flowbee.Store.Verdicts.{fresh_review}
use flowbee.Store.Watch.{LivenessConfig, evaluate_liveness}
use flowbee.Examples.Build.{no_lease}
use flowbee.Store.Lifecycle.Claims.{has_lease_id}
use flowbee.Examples.Build.{is_first_approval, is_minted}

opening-IsAudited : IsAudited opening
unfolding fold fold_from apply_event fold_kind job_created_case sync_caps sync_role sync_gate
    sync_notes is_human_gate zero_payload zero_job is_ready is_empty is_mergeable bytes
    has_active_lease
opening-IsAudited = record { rising = tt; held = refl }

taking_commits : claim_ready_job taking opening nobody ≡ committed (taken, claimed)
taking_commits = commits opening no_lease (claim_ready_job taking opening nobody) took

giving_commits : store_result digest 30 giving taken ≡ committed (built, answer)
giving_commits = commits taken no_response (store_result digest 30 giving taken) gave

approving_commits :
    fresh_review digest approving inputs judging ≡ committed (approved_build, verdict_answer)
approving_commits =
    commits judging no_response (fresh_review digest approving inputs judging) judged

to_built : Reach digest opening built
to_built =
    next (next here (claims taking nobody claimed taking_commits))
      (results 30 giving answer giving_commits)

under_review : Step digest built judging
under_review =
    claims_review reviewing nobody review_claimed
      (commits built no_lease (claim_review_job reviewing built nobody) opened)

to_judging : Reach digest opening judging
to_judging = next to_built under_review

Reach-IsSound_example : IsReplayed judging.store × IsSound judging.store
Reach-IsSound_example = Reach-IsSound digest opening judging born-IsSound to_judging

Reach-IsAudited_example : IsAudited judging
Reach-IsAudited_example =
    Reach-IsAudited digest opening judging born-IsSound opening-IsAudited to_judging

no_row_yet : has_lease_id taking.lease_id opening ≡ false
unfolding any
no_row_yet = refl

claim_ready_job_iff_example :
    (((db' : Tables) × (l : Lease) × (claim_ready_job taking opening nobody ≡ committed (db', l)))
      ↔ IsClaimable taking opening nobody)
    × ((x : TxError) → claim_ready_job taking opening nobody ≡ rolled_back x → x ≡ lost_race)
claim_ready_job_iff_example = claim_ready_job_iff taking opening nobody opening-IsAudited no_row_yet

claim_ready_job_exclusive_example :
    (claimed.epoch ≡ epoch_of opening + 1)
    × (epoch_of taken ≡ claimed.epoch)
    × (claim_ready_job taking taken nobody ≡ rolled_back lost_race)
claim_ready_job_exclusive_example =
    claim_ready_job_exclusive taking taking opening taken nobody nobody claimed taking_commits

fresh_review-IsQuorate_example :
    (v : Verdict) × IsQuorate digest approving inputs judging approved_build verdict_answer v
fresh_review-IsQuorate_example =
    fresh_review-IsQuorate digest approving inputs judging approved_build verdict_answer
      approving_commits is_minted is_first_approval

giving_key : is_empty giving.idempotency_key ≡ false
unfolding is_empty bytes
giving_key = refl

store_result_repeats_example : IsAnswered digest (bytes "k") answer judging
store_result_repeats_example =
    store_result_repeats digest 30 giving taken built judging answer giving_commits giving_key
      (next here under_review)

-- The clocks of the lease ran out, with a governor of three.
abbrev governed : LivenessConfig
governed = record {
  phase_budget = 0;
  absolute_cap = 60;
  governor_ceiling = 3;
  heartbeat_reap_after = 0;
}

abbrev overdue : Tables
overdue = (evaluate_liveness digest governed false 100 taken).0

abbrev overdue_step : Step digest taken overdue
overdue_step = stalls taken governed false 100
