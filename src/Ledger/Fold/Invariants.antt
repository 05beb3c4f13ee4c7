-- ===== src/Ledger/Fold/Invariants.antt =====
-- What holds of every projection that `Fold` of internal/ledger/ledger.go returns.
use flowbee.Base.{ℕ, ◌≡◌, refl, false, List, [], ◌∷◌, arith}
use flowbee.Job.State.{
  State, ready, spec_authoring, spec_review, resolving_conflict, Role, spec_author, spec_reviewer,
  eng_worker, conflict_resolver, Kind, build, role_caps,
}
use flowbee.Job.Record.{Job, zero_job}
use flowbee.Ledger.Event.{Event}
use flowbee.Ledger.Fold.{
  is_human_gate, sync_gate, sync_caps, sync_role, apply_event, fold_from, fold,
}

abbrev pub HasRole : Job → Role → Type 0
HasRole j r = (j.role ≡ r) × (j.required_capabilities ≡ role_caps r)

pub record IsConsistent (j : Job) : Type 0 where
  pub reason_gated : is_human_gate j.state ≡ false → j.escalation_reason ≡ []
  pub budget_gated : is_human_gate j.state ≡ false → j.over_budget ≡ false
  pub ready_build : j.state ≡ ready → j.kind ≡ build → HasRole j eng_worker
  pub authoring : j.state ≡ spec_authoring → HasRole j spec_author
  pub reviewing : j.state ≡ spec_review → HasRole j spec_reviewer
  pub resolving : j.state ≡ resolving_conflict → HasRole j conflict_resolver

abbrev GateSynced : Job → Type 0
GateSynced j = is_human_gate j.state ≡ false → (j.escalation_reason ≡ []) × (j.over_budget ≡ false)

sync_gate-GateSynced : (e : Event) (j : Job) → GateSynced (sync_gate e j)
unfolding sync_gate
sync_gate-GateSynced e j = ground arith

sync_role-IsConsistent :
    (s : State) (k : Kind) (j : Job)
    → j.state ≡ s
    → j.kind ≡ k
    → GateSynced j
    → IsConsistent (sync_role s k j)
unfolding sync_role
sync_role-IsConsistent ready build j p q g = ground arith
sync_role-IsConsistent _ _ j p q g = ground arith

sync_caps-IsConsistent : (j : Job) → GateSynced j → IsConsistent (sync_caps j)
unfolding sync_caps
sync_caps-IsConsistent j g = sync_role-IsConsistent j.state j.kind j refl refl g

with_seq-IsConsistent : (j : Job) (n : ℕ) → IsConsistent j → IsConsistent (record j { job_seq = n })
with_seq-IsConsistent j n c = ground arith

pub apply_event-IsConsistent : (j : Job) (e : Event) → IsConsistent (apply_event j e)
unfolding apply_event
apply_event-IsConsistent j e =
    with_seq-IsConsistent _ e.job_seq (sync_caps-IsConsistent _ (sync_gate-GateSynced e _))

fold_from-IsConsistent :
    (j : Job) (es : List Event) → IsConsistent j → IsConsistent (fold_from j es)
unfolding fold_from
fold_from-IsConsistent j [] c = c
fold_from-IsConsistent j (e ∷ es) c =
    fold_from-IsConsistent (apply_event j e) es (apply_event-IsConsistent j e)

-- Every projection, after any events at all, is consistent: the escalation reason and the
-- over-budget mark stand only in a human-gate state, and a ready build, a spec being authored, a
-- spec under review and a conflict being resolved have the role and the capabilities of the worker
-- that may take them.
pub fold-IsConsistent : (es : List Event) → IsConsistent (fold es)
unfolding fold zero_job
fold-IsConsistent es = fold_from-IsConsistent zero_job es (ground arith)
