-- ===== src/Examples/Gates.antt =====
-- The theorems on the gates of internal/job and the kill rule of internal/liveness, applied to samples.
use flowbee.Base.{
  ◌+◌, ◌≤◌, ◌≡◌, ◌≢◌, ◌↔◌, refl, ◌⊎◌, Bool, true, false, List, [], ◌∷◌, ◌++◌, none, some, arith,
}
use mathlib.Core.List.{Memᴰ}
use flowbee.Base.Text.{Text, bytes, text_eq, is_empty}
use flowbee.Job.State.{ready, mergeable, default_max_bounces}
use flowbee.Job.Transition.{
  Trigger, claimed, work_started, result_received, review_claimed, approved, next,
}
use flowbee.Job.Transition.Runs.{run, run-approved}
use flowbee.Job.Caps.{capabilities_satisfy}
use flowbee.Job.Caps.Match.{capabilities_satisfy_iff, Meets}
use flowbee.Job.Verdict.{
  approved_value, signed_off_value, amended_value, self_merge_disposition, handoff_disposition,
  mint_verdict, mint_spec_signoff, verify, compute_hash,
}
use flowbee.Job.Verdict.Binding.{verify_tampered, compute_hash-mint, verify-mint_verdict, SameFacts}
use flowbee.Base.Strings.{equal_fold, lower}
use flowbee.Job.Gate.{
  evaluate_gate, approved_arm, gate_predicate, promotes, content_eligible, merge_ready,
  reason_moved,
}
use flowbee.Content.{eligible}
use flowbee.Job.Gate.Decisions.{
  evaluate_gate-approved, promotes_iff, deny_reason_unknown, reviewer_cap_idle,
}
use flowbee.Job.SpecGate.{
  SpecGateInputs, evaluate_spec_gate, is_amendment, meets_conjunction, same_lens, sign_off_arm,
}
use flowbee.Job.SpecGate.Decisions.{evaluate_spec_gate-signs}
use flowbee.Job.CiFact.{CiFact, flowbee_test}
use flowbee.Liveness.{evaluate_kill, is_stalled}
use flowbee.Liveness.Kills.{evaluate_kill_iff, ungameable_votes, worker_votes, IsClockTruth}
use flowbee.Examples.Samples.{
  digest, head, base, unknown_facts, clear_diff, self_merge_verdict, sample_inputs, thinking,
}

abbrev build_run : List Trigger
build_run = claimed ∷ work_started ∷ result_received ∷ review_claimed ∷ approved ∷ []

build_run-runs : run ready build_run ≡ some mergeable
unfolding run next
build_run-runs = refl

run-approved_example : Memᴰ approved build_run
run-approved_example = run-approved ready mergeable build_run build_run-runs refl refl

abbrev builder : List Text
builder = bytes "role:eng_worker" ∷ bytes "model_family:codex" ∷ []

abbrev wanted : List Text
wanted = bytes "role:eng_worker" ∷ bytes "model_family:*" ∷ []

capabilities_satisfy_iff_example :
    (capabilities_satisfy builder wanted ≡ true)
    ↔ ((req : Text) → Memᴰ req wanted → Meets builder req)
capabilities_satisfy_iff_example = capabilities_satisfy_iff builder wanted

own_hash : self_merge_verdict.integrity_hash ≡ compute_hash digest self_merge_verdict
own_hash = compute_hash-mint digest approved_value self_merge_disposition head base

verify_tampered_example :
    SameFacts self_merge_verdict self_merge_verdict
    × (self_merge_verdict.head_sha ≡ head)
    × (self_merge_verdict.base_sha ≡ base)
verify_tampered_example =
    verify_tampered digest self_merge_verdict self_merge_verdict head base (λ e. e) own_hash refl
      ((verify-mint_verdict digest approved_value self_merge_disposition head base head base).1
        (refl, refl))

verify-mint_verdict_example :
    (verify digest self_merge_verdict head (bytes "moved") ≡ true)
    ↔ ((head ≡ head) × (base ≡ bytes "moved"))
verify-mint_verdict_example =
    verify-mint_verdict digest approved_value self_merge_disposition head base head (bytes "moved")

not_ready : merge_ready unknown_facts ≡ false
unfolding merge_ready gate_predicate equal_fold is_empty text_eq bytes lower
not_ready = refl

not_promoted : promotes digest sample_inputs ≡ false
not_promoted = ground (arith, not_ready, (promotes_iff digest sample_inputs).0)

facts_green : gate_predicate unknown_facts ≡ true
unfolding gate_predicate is_empty bytes
facts_green = refl

sample_approved : (evaluate_gate digest sample_inputs).trigger ≡ approved
sample_approved = (evaluate_gate-approved digest sample_inputs).1 (refl, facts_green)

sample_verdict :
    (evaluate_gate digest sample_inputs).verdict
    ≡ some (mint_verdict digest approved_value handoff_disposition head base)
unfolding evaluate_gate approved_arm text_eq bytes
sample_verdict = rw (facts_green, not_promoted) refl

clear_content : content_eligible (some clear_diff) ≡ true
unfolding content_eligible eligible
clear_content = refl

deny_reason_unknown_example :
    (equal_fold (bytes "UNKNOWN") (bytes "unknown") ≡ true)
    × ((evaluate_gate digest sample_inputs).reason
        ≡ bytes "self_merge requested but " ++ reason_moved)
deny_reason_unknown_example =
    deny_reason_unknown digest sample_inputs sample_approved refl clear_content refl not_promoted

reviewer_cap_idle_example :
    ((evaluate_gate digest sample_inputs).trigger
      ≡ (evaluate_gate digest (record sample_inputs { reviewer_rejections = 0 })).trigger)
    × ((evaluate_gate digest sample_inputs).verdict
        ≡ (evaluate_gate digest (record sample_inputs { reviewer_rejections = 0 })).verdict)
reviewer_cap_idle_example = reviewer_cap_idle digest sample_inputs (omega arith) (omega arith)

abbrev sign_off : SpecGateInputs
sign_off = record {
  claim = signed_off_value;
  claim_binds_to = bytes "sha256:11";
  meets_style = true;
  meets_requirements = true;
  current_spec_hash = bytes "sha256:11";
  spec_version = 1;
  reviewer_lens = bytes "codex";
  author_lens = bytes "claude";
  bounces = 0;
  max_bounce = default_max_bounces;
  reviewer_rejections = 0;
  amended_hash = [];
  amended_version = 0;
}

evaluate_spec_gate-signs_example : ((evaluate_spec_gate digest sign_off).signoff ≢ none) ↔ (
    (bytes "sha256:11" ≡ bytes "sha256:11")
    × ((bytes "claude" ≡ []) ⊎ (bytes "codex" ≢ bytes "claude"))
    × (((signed_off_value ≡ amended_value)
          × (◌≢◌ {A = Text} [] [])
          × (◌≢◌ {A = Text} [] (bytes "sha256:11")))
        ⊎ ((signed_off_value ≡ signed_off_value)
            × (◌≡◌ {A = Bool} true true)
            × (◌≡◌ {A = Bool} true true))))
evaluate_spec_gate-signs_example = evaluate_spec_gate-signs digest sign_off

sample_signoff :
    (evaluate_spec_gate digest sign_off).signoff
    ≡ some (mint_spec_signoff digest (bytes "sha256:11") 1 (bytes "codex"))
unfolding evaluate_spec_gate same_lens is_amendment meets_conjunction sign_off_arm text_eq is_empty
    bytes
sample_signoff = refl

abbrev test_fact : CiFact
test_fact = record { head_sha = head; green = true; provenance = flowbee_test }

evaluate_kill_iff_example : ((evaluate_kill thinking).kill ≡ true) ↔ (
    IsClockTruth thinking
    ⊎ ((true ≡ false)
        × (1 ≤ ungameable_votes thinking)
        × (2 ≤ ungameable_votes thinking + worker_votes thinking)))
evaluate_kill_iff_example = evaluate_kill_iff thinking

no-IsClockTruth : ¬ IsClockTruth thinking
no-IsClockTruth h = ground arith

abstains : is_stalled thinking.rung2 ≡ false
unfolding is_stalled
abstains = refl
