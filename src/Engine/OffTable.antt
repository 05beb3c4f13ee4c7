-- ===== src/Engine/OffTable.antt =====
-- Where the transitions of internal/engine/engine.go leave the table of internal/job/transition.go.
use flowbee.Base.{◌≡◌, ◌≢◌, ◌⊎◌, Bool, true, false, List, [], ◌∷◌, some, arith}
use flowbee.Base.Text.{Text}
use flowbee.Job.State.{
  State, spec_authoring, spec_review, ready, failed, resolving_conflict, merging, merge_handoff,
  has_active_lease,
}
use flowbee.Job.Transition.{Trigger, next}
use flowbee.Engine.{decide}
use flowbee.Engine.Edges.Arms.{Edge}
use flowbee.Engine.Types.{EngineState, heartbeat, Heartbeat, release, Transition, fenced, rejected}
use flowbee.Engine.Lease.{decide_heartbeat, decide_release, heartbeat_arm, release_target}
use flowbee.Liveness.{evaluate_fast_path}

-- The lease-holding states that the kill and fast-path rows of the table leave out.
abbrev pub is_uncharted : State → Bool
is_uncharted resolving_conflict = true
is_uncharted merging = true
is_uncharted merge_handoff = true
is_uncharted _ = false

no_edge_failed : (j : State) (t : Trigger) → is_uncharted j ≡ true → next j t ≢ some failed
unfolding next
no_edge_failed j t h e = ground arith

-- The targets of a list of transitions.
abbrev pub targets : List Transition → List State
targets [] = []
targets (t ∷ ts) = t.to ∷ targets ts

-- A worker that exits while it resolves a conflict, or while its job is merging or handed off, moves
-- the job to `failed`, and no trigger of the table does.
pub exit_off_table :
    (sha256 : Text → Text) (s : EngineState) (h : Heartbeat)
    → is_uncharted s.job.state ≡ true
    → h.epoch ≡ s.epoch
    → h.agent_exited ≡ true
    → (targets (decide sha256 s (heartbeat h)).transitions ≡ failed ∷ [])
      × ¬ Edge s.job.state failed
unfolding decide decide_heartbeat heartbeat_arm fenced rejected has_active_lease evaluate_fast_path
exit_off_table sha256 s h u e x = (ground arith, λ (t, n). no_edge_failed s.job.state t u n)

spec_no_ready :
    (j : State) (t : Trigger) → (j ≡ spec_authoring) ⊎ (j ≡ spec_review) → next j t ≢ some ready
unfolding next
spec_no_ready j t h e = ground arith

-- A release of a spec lease is decided as a move to `ready`, a build's state, and no trigger of the
-- table takes a spec stage there.
pub release_off_table :
    (sha256 : Text → Text) (s : EngineState)
    → (s.job.state ≡ spec_authoring) ⊎ (s.job.state ≡ spec_review)
    → (targets (decide sha256 s (release s.epoch)).transitions ≡ ready ∷ [])
      × ¬ Edge s.job.state ready
unfolding decide decide_release release_target fenced rejected has_active_lease
release_off_table sha256 s h = (ground arith, λ (t, n). spec_no_ready s.job.state t h n)
