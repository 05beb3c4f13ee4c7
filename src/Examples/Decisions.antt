-- ===== src/Examples/Decisions.antt =====
-- The theorems on `Decide` of internal/engine/engine.go, applied to sample events.
use flowbee.Base.{◌≡◌, refl, inl, true, false, [], ◌∷◌, some, arith}
use flowbee.Base.Text.{bytes, text_eq, is_empty}
use flowbee.Job.State.{
  ready, failed, spec_authoring, code_review, building, mergeable, resolving_conflict,
}
use flowbee.Job.Verdict.{
  Verdict, approved_value, handoff_disposition, self_merge_disposition, mint_verdict, verify,
  required_reviewers_or_default,
}
use flowbee.Job.Verdict.Binding.{verify-mint_verdict}
use flowbee.Base.Strings.{equal_fold, lower}
use flowbee.Job.Gate.{
  evaluate_gate, approved_arm, gate_predicate, promotes, content_eligible, merge_ready,
  self_merge_eligible,
}
use flowbee.Content.{eligible}
use flowbee.Liveness.{ok}
use flowbee.Engine.{decide}
use flowbee.Engine.Types.{
  heartbeat, Heartbeat, review_claim, ReviewClaim, merge_dispatch, release, cost_meter, fenced,
  rejected,
}
use flowbee.Engine.Review.{
  decide_review_claim, review_arm, approval_arm, awaits_reviewers, gate_inputs, is_code_review,
  verdict_minted_move, decide_merge_dispatch, merge_arm, merge_blocked, takes_self_merge,
  is_mergeable,
}
use flowbee.Engine.Minting.{MintedFrom, decide-mints, Merges, UnattendedMerge, decide-Merges}
use flowbee.Engine.Edges.Arms.{Walk, Edge}
use flowbee.Engine.Edges.{decide-Walk}
use flowbee.Engine.Fencing.{decide_stale}
use flowbee.Engine.OffTable.{targets, exit_off_table, release_off_table}
use flowbee.Examples.Samples.{digest, head, base, green_facts, self_merge_verdict, state_in}

abbrev approval : ReviewClaim
approval = record {
  epoch = 3;
  value = approved_value;
  disposition = handoff_disposition;
  reviewer_prior_rejections = 0;
  prior_approvals = 0;
}

abbrev handoff_verdict : Verdict
handoff_verdict = mint_verdict digest approved_value handoff_disposition head base

approval_mints :
    (decide digest (state_in code_review) (review_claim approval)).verdict_mint
    ≡ some handoff_verdict
unfolding decide decide_review_claim fenced is_code_review review_arm approval_arm awaits_reviewers
    gate_inputs evaluate_gate approved_arm gate_predicate promotes text_eq is_empty bytes
    required_reviewers_or_default
approval_mints = refl

decide-mints_example :
    (c : ReviewClaim) × (review_claim approval ≡ review_claim c)
    × MintedFrom digest (state_in code_review) c handoff_verdict
    × ((decide digest (state_in code_review) (review_claim approval)).transitions
        ≡ verdict_minted_move (some handoff_verdict) ∷ [])
decide-mints_example =
    decide-mints digest (state_in code_review) (review_claim approval) handoff_verdict
      approval_mints

self_merge_verifies : verify digest self_merge_verdict head base ≡ true
self_merge_verifies =
    (verify-mint_verdict digest approved_value self_merge_disposition head base head base).1
      (refl, refl)

sample_merge_ready : merge_ready green_facts ≡ true
unfolding merge_ready gate_predicate equal_fold is_empty text_eq bytes lower
sample_merge_ready = refl

sample_disposition : text_eq self_merge_verdict.disposition self_merge_disposition ≡ true
unfolding mint_verdict text_eq bytes
sample_disposition = refl

dispatch-Merges : Merges (decide digest (state_in mergeable) merge_dispatch).transitions
unfolding decide decide_merge_dispatch is_mergeable merge_arm merge_blocked takes_self_merge
    self_merge_eligible content_eligible eligible
dispatch-Merges = rw (sample_merge_ready, self_merge_verifies, sample_disposition) (inl refl)

decide-Merges_example :
    (merge_dispatch ≡ merge_dispatch)
    × ((v : Verdict) × UnattendedMerge digest (state_in mergeable) v)
decide-Merges_example = decide-Merges digest (state_in mergeable) merge_dispatch dispatch-Merges

decide-Walk_example : Walk building (decide digest (state_in building) (cost_meter 3)).transitions
decide-Walk_example = decide-Walk digest (state_in building) (cost_meter 3) refl

decide_stale_example :
    decide digest (state_in code_review) (review_claim (record approval { epoch = 2 }))
    ≡ rejected (bytes "stale lease epoch")
decide_stale_example =
    decide_stale digest (state_in code_review) (review_claim (record approval { epoch = 2 })) 2 refl
      (omega arith)

abbrev exit_report : Heartbeat
exit_report = record { epoch = 3; health = ok; awaiting_input = false; agent_exited = true }

exit_off_table_example :
    (targets (decide digest (state_in resolving_conflict) (heartbeat exit_report)).transitions
      ≡ failed ∷ [])
    × ¬ Edge resolving_conflict failed
exit_off_table_example =
    exit_off_table digest (state_in resolving_conflict) exit_report refl refl refl

release_off_table_example :
    (targets (decide digest (state_in spec_authoring) (release 3)).transitions ≡ ready ∷ [])
    × ¬ Edge spec_authoring ready
release_off_table_example = release_off_table digest (state_in spec_authoring) (inl refl)
