-- ===== src/Examples/Staffing.antt =====
-- The theorems on internal/flow and on the constraints of test jobs, applied to a review by two lenses and to
-- a job that must be tested on arm64.
use flowbee.Base.{◌≡◌, refl, true, false, ◌&&◌, List, [], ◌∷◌, none}
use flowbee.Base.Int.{pos}
use flowbee.Base.Lists.{all}
use flowbee.Base.Text.{Text, bytes, is_empty, text_eq}
use flowbee.Base.Sorting.{sort_stable, insert_by}
use flowbee.Flow.{ok, err}
use flowbee.Flow.AntiAffinity.{AllOf}
use flowbee.Flow.Independence.{IsStaffed, resolve-IsStaffed}
use flowbee.Flow.Clashes.{resolve_stage-clashes}
use flowbee.Job.Caps.{capabilities_satisfy, satisfied}
use flowbee.Job.TestJob.{
  TestMatrix, role_tester, arch_prefix, os_prefix, tool_prefix, derive_test_constraints,
}
use flowbee.Job.TestJob.Routing.{attests, tests_path, capabilities_satisfy-derive_test_constraints}
use flowbee.Flow.{
  FlowError, Identity, Resolution, ResolveOptions, ResolvedStage, ReviewerSlot, Stage, get,
  resolve_identity, resolve_layers,
}
use flowbee.Flow.Resolve.{
  check_anti_affinity, check_from, decision_or_default, first_lens, has_reviewers, is_dropped,
  overrides_of, resolve, resolve_fan_out, resolve_reviewers, resolve_stage, resolve_stages,
  staffed_stage,
}

abbrev person : Text → Text → Identity
person id family = record {
  id = id;
  role = bytes "code_reviewer";
  stage = bytes "review";
  review_lens = [];
  source_slug = [];
  display_name = [];
  role_name = [];
  tagline = [];
  model = [];
  model_tier = [];
  model_family = family;
  lens = [];
}

abbrev staff : List Identity
staff = person (bytes "ann") (bytes "claude") ∷ person (bytes "bob") (bytes "codex") ∷ []

abbrev no_default : Text → Text
no_default role = []

abbrev open_options : ResolveOptions
open_options = record {
  epic_overrides = no_default;
  job_overrides = no_default;
  include_optional = none;
  require_distinct_model_family = true;
}

abbrev overriding : ResolveOptions
overriding = record open_options { job_overrides = λ name. bytes "ann" }

abbrev first_slot : ReviewerSlot
first_slot = record { identity = bytes "ann"; lens = bytes "tests" }

abbrev second_slot : ReviewerSlot
second_slot = record { identity = bytes "bob"; lens = bytes "security" }

abbrev review_stage : Stage
review_stage = record {
  role = bytes "code_reviewer";
  needs = [];
  gate = true;
  when = [];
  context = [];
  max_bounces = pos 0;
  optional = false;
  identity = [];
  decision = [];
  reviewers = first_slot ∷ second_slot ∷ [];
}

abbrev stages_of : Resolution (List ResolvedStage) → List ResolvedStage
stages_of (ok out) = out
stages_of (err e) = []

abbrev staffed : List ResolvedStage
staffed = stages_of (resolve staff no_default open_options ((bytes "review", review_stage) ∷ []))

resolves : resolve staff no_default open_options ((bytes "review", review_stage) ∷ []) ≡ ok staffed
unfolding resolve resolve_stages sort_stable insert_by resolve_stage is_dropped has_reviewers
    resolve_fan_out resolve_reviewers resolve_identity resolve_layers is_empty overrides_of bytes
    get text_eq check_anti_affinity check_from first_lens staffed_stage decision_or_default
resolves = refl

resolve-IsStaffed_example : AllOf (IsStaffed staff open_options) staffed
resolve-IsStaffed_example =
    resolve-IsStaffed staff no_default open_options ((bytes "review", review_stage) ∷ []) staffed
      resolves

kept : is_dropped overriding (bytes "review") review_stage ≡ false
unfolding is_dropped
kept = refl

overridden : is_empty (overriding.job_overrides (bytes "review")) ≡ false
unfolding is_empty bytes
overridden = refl

resolve_stage-clashes_example :
    (e : FlowError) × (resolve_stage staff no_default overriding (bytes "review") review_stage
      ≡ err e)
resolve_stage-clashes_example =
    resolve_stage-clashes staff no_default overriding (bytes "review") review_stage first_slot
      second_slot [] kept refl overridden

abbrev arm_matrix : TestMatrix
arm_matrix = record { arch = bytes " ARM64"; os = []; tools = bytes "cgo" ∷ [] }

abbrev attested : List Text
attested = bytes "role:tester" ∷ bytes "arch:x86_64" ∷ bytes "tool:cgo" ∷ []

abbrev touched : List Text
touched = bytes "db/Dockerfile" ∷ []

capabilities_satisfy-derive_test_constraints_example :
    capabilities_satisfy attested (derive_test_constraints arm_matrix touched) ≡ (
      all (tests_path attested) touched
      && (all (attests attested tool_prefix) arm_matrix.tools
          && (attests attested os_prefix arm_matrix.os
              && (attests attested arch_prefix arm_matrix.arch && satisfied attested role_tester))))
capabilities_satisfy-derive_test_constraints_example =
    capabilities_satisfy-derive_test_constraints attested arm_matrix touched
