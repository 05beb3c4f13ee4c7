-- ===== src/Job/State.antt =====
-- The vocabulary of internal/job/job.go: states, roles and kinds, the states that hold a lease, and
-- the pure predicates over a job's counters. `unset` is Go's zero value "".
pub mod Bounds
use flowbee.Base.{
  ℕ, Bool, true, false, ◌&&◌, if◌then◌else◌, Option, none, some, List, [], ◌∷◌, ◌++◌,
}
use flowbee.Base.Text.{Text, bytes}
use flowbee.Base.Int.{ℤ, pos, leb_ℤ, ltb_ℤ}

pub data State : Type 0 where
  spec_authoring spec_review ready leased building review_pending code_review mergeable : State
  merging merge_handoff done blocked needs_human superseded cancelled failed needs_design : State
  backlog quiescent resolving_conflict unset : State

pub data Role : Type 0 where
  spec_author spec_reviewer eng_worker code_reviewer merger conflict_resolver tester : Role
  no_role : Role

pub data Kind : Type 0 where
  spec build test no_kind : Kind

-- `ActiveLeaseStates`, the keys of the map.
unfoldable pub has_active_lease : State → Bool
has_active_lease leased = true
has_active_lease building = true
has_active_lease code_review = true
has_active_lease merging = true
has_active_lease merge_handoff = true
has_active_lease spec_authoring = true
has_active_lease spec_review = true
has_active_lease resolving_conflict = true
has_active_lease _ = false

-- `s != StateMergeHandoff && s != StateMerging`
is_worker_less : State → Bool
is_worker_less merge_handoff = true
is_worker_less merging = true
is_worker_less _ = false

unfoldable pub liveness_evaluable : State → Bool
unfolding has_active_lease is_worker_less
liveness_evaluable s = if is_worker_less s then false else has_active_lease s

-- `ceiling != nil && costMicroUSD >= *ceiling`
unfoldable pub cost_exceeded : ℤ → Option ℤ → Bool
cost_exceeded cost none = false
cost_exceeded cost (some ceiling) = leb_ℤ ceiling cost

-- `EscalationReason` is a Go string; "" is none.
abbrev pub escalation_attempts : Text
escalation_attempts = bytes "attempts"

abbrev pub escalation_cost : Text
escalation_cost = bytes "cost"

abbrev pub escalation_stall : Text
escalation_stall = bytes "stall"

abbrev pub escalation_bounces : Text
escalation_bounces = bytes "bounces"

abbrev pub escalation_project_out : Text
escalation_project_out = bytes "project_out"

abbrev pub escalation_ci_stalled : Text
escalation_ci_stalled = bytes "ci_stalled"

abbrev pub escalation_post_merge_ci : Text
escalation_post_merge_ci = bytes "post_merge_ci"

abbrev pub escalation_pr_closed : Text
escalation_pr_closed = bytes "pr_closed"

abbrev pub escalation_reviewer_rejections : Text
escalation_reviewer_rejections = bytes "reviewer_rejections"

abbrev pub escalation_design : Text
escalation_design = bytes "design"

-- The text of a state, as the Go constant has it.
unfoldable pub state_text : State → Text
state_text spec_authoring = bytes "spec_authoring"
state_text spec_review = bytes "spec_review"
state_text ready = bytes "ready"
state_text leased = bytes "leased"
state_text building = bytes "building"
state_text review_pending = bytes "review_pending"
state_text code_review = bytes "code_review"
state_text mergeable = bytes "mergeable"
state_text merging = bytes "merging"
state_text merge_handoff = bytes "merge_handoff"
state_text done = bytes "done"
state_text blocked = bytes "blocked"
state_text needs_human = bytes "needs_human"
state_text superseded = bytes "superseded"
state_text cancelled = bytes "cancelled"
state_text failed = bytes "failed"
state_text needs_design = bytes "needs_design"
state_text backlog = bytes "backlog"
state_text quiescent = bytes "quiescent"
state_text resolving_conflict = bytes "resolving_conflict"
state_text unset = []

role_text : Role → Text
role_text spec_author = bytes "spec_author"
role_text spec_reviewer = bytes "spec_reviewer"
role_text eng_worker = bytes "eng_worker"
role_text code_reviewer = bytes "code_reviewer"
role_text merger = bytes "merger"
role_text conflict_resolver = bytes "conflict_resolver"
role_text tester = bytes "tester"
role_text no_role = []

-- `[]string{"role:" + string(role)}`
unfoldable pub role_caps : Role → List Text
unfolding role_text
role_caps r = (bytes "role:" ++ role_text r) ∷ []

abbrev pub default_max_attempts : ℕ
default_max_attempts = 5

abbrev pub default_max_bounces : ℕ
default_max_bounces = 4

abbrev pub most_urgent_priority : ℤ
most_urgent_priority = pos 1

abbrev pub default_priority : ℤ
default_priority = pos 5

abbrev pub least_urgent_priority : ℤ
least_urgent_priority = pos 10

unfoldable pub normalize_priority : ℤ → ℤ
normalize_priority p =
    if leb_ℤ p (pos 0) && leb_ℤ (pos 0) p
    then default_priority
    else if ltb_ℤ p most_urgent_priority
    then most_urgent_priority
    else if ltb_ℤ least_urgent_priority p
    then least_urgent_priority
    else p
