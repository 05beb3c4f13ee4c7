-- ===== src/Job/Transition/Runs.antt =====
-- What holds of every run of the table of internal/job/transition.go.
use flowbee.Base.{
  ◌≡◌, ◌≢◌, sym, ◌⊎◌, ◌↔◌, inl, inr, Bool, true, false, Option, none, some, List, [], ◌∷◌, arith,
  Option-cases, Bool-cases,
}
use mathlib.Core.List.{Memᴰ}
use flowbee.Job.State.{
  State, spec_authoring, spec_review, ready, leased, building, review_pending, code_review,
  mergeable, merging, merge_handoff, done, blocked, needs_human, superseded, cancelled, failed,
  needs_design, backlog, quiescent, resolving_conflict, unset,
}
use flowbee.Job.Transition.{
  Trigger, claimed, work_started, result_received, released, lease_expired_retry, deps_cleared,
  review_claimed, approved, handoff, spec_signed_off, spec_authored, design_resolved,
  promoted_to_ready, adopted_for_review, next,
}

-- The table driven by a list of triggers; an illegal pair stops it.
unfoldable pub run : State → List Trigger → Option State
run s [] = some s
run s (t ∷ ts) = elim (next s t) [ none ↦ none | some s' ↦ run s' ts ]

-- The states at or past the merge gate.
abbrev pub is_merge : State → Bool
is_merge mergeable = true
is_merge merging = true
is_merge merge_handoff = true
is_merge _ = false

-- The states that no trigger of the table leaves.
abbrev pub is_sink : State → Bool
is_sink done = true
is_sink needs_human = true
is_sink superseded = true
is_sink cancelled = true
is_sink merging = true
is_sink merge_handoff = true
is_sink unset = true
is_sink _ = false

next_merge :
    (s s' : State) (t : Trigger)
    → next s t ≡ some s'
    → is_merge s ≡ false
    → (t ≡ approved) ⊎ (is_merge s' ≡ false)
unfolding next
next_merge s s' t h k = ground arith

-- A run of the table that starts outside mergeable, merging and merge_handoff and ends in one of
-- them contains the `approved` trigger of the code-review gate.
pub run-approved :
    (s s' : State) (ts : List Trigger)
    → run s ts ≡ some s'
    → is_merge s ≡ false
    → is_merge s' ≡ true
    → Memᴰ approved ts
unfolding run
run-approved s s' [] h k m = ground arith
run-approved s s' (t ∷ ts) h k m = elim (Option-cases (next s t)) [
  | inl e ↦ absurd (ground arith)
  | inr (u, e) ↦ elim (next_merge s u t e k) [
    | inl p ↦ Memᴰ.head (sym p)
    | inr q ↦ Memᴰ.tail (run-approved u s' ts (ground arith) q m)
  ]
]

-- A trigger that leaves the state, where there is one.
way_out : State → Trigger
way_out spec_authoring = spec_authored
way_out spec_review = spec_signed_off
way_out ready = claimed
way_out leased = work_started
way_out building = result_received
way_out review_pending = review_claimed
way_out code_review = approved
way_out mergeable = handoff
way_out blocked = deps_cleared
way_out failed = lease_expired_retry
way_out needs_design = design_resolved
way_out backlog = promoted_to_ready
way_out quiescent = adopted_for_review
way_out resolving_conflict = released
way_out _ = claimed

way_out-leaves : (s : State) → is_sink s ≡ false → next s (way_out s) ≢ none
unfolding next way_out
way_out-leaves s h = ground arith

-- The table stops in exactly seven states: done, needs_human, superseded, cancelled, merging,
-- merge_handoff and the zero value. There no trigger is legal, and in every other state some is.
pub is_sink_iff : (s : State) → (is_sink s ≡ true) ↔ ((t : Trigger) → next s t ≡ none)
unfolding next
is_sink_iff s = (
  λ h t. ground arith,
  λ stuck. elim (Bool-cases (is_sink s)) [
    | inl e ↦ e
    | inr e ↦ absurd (way_out-leaves s e (stuck (way_out s)))
  ],
)
