-- ===== src/Ledger/Fold/Audit.antt =====
-- Events that are kept for audit fold to nothing.
use flowbee.Base.{◌≡◌, refl, ◌∙◌, Bool, true, false, List, [], ◌∷◌, ◌++◌, arith}
use flowbee.Base.Text.{is_empty}
use flowbee.Job.State.{State, ready, Kind, build}
use flowbee.Job.Record.{Job, zero_job}
use flowbee.Ledger.Event.{Event, EventKind}
use flowbee.Ledger.Event.EventKind.{
  heartbeat, no_eligible_worker, verdict_claim, facts_reconciled, spec_claim, tracking_labelled,
  compensated, stacked_rebased, test_ci_recorded,
}
use flowbee.Ledger.Fold.{
  fold_kind, sync_notes, sync_gate, sync_caps, sync_role, apply_event, fold_from, fold,
}
use flowbee.Ledger.Fold.Invariants.{IsConsistent, fold-IsConsistent}

abbrev pub is_audit : EventKind → Bool
is_audit heartbeat = true
is_audit no_eligible_worker = true
is_audit verdict_claim = true
is_audit facts_reconciled = true
is_audit spec_claim = true
is_audit tracking_labelled = true
is_audit compensated = true
is_audit stacked_rebased = true
is_audit test_ci_recorded = true
is_audit _ = false

-- The payload carries no findings, no failed checks and no escalation reason.
abbrev pub IsBare : Event → Type 0
IsBare e =
    (e.payload.review_notes ≡ [])
    × (e.payload.ci_failures ≡ [])
    × (e.payload.escalation_reason ≡ [])

fold_kind-audit : (k : EventKind) (e : Event) (j : Job) → is_audit k ≡ true → fold_kind k e j ≡ j
unfolding fold_kind
fold_kind-audit heartbeat e j h = refl
fold_kind-audit _ e j h = ground arith

pub sync_notes-bare : (e : Event) (j : Job) → IsBare e → sync_notes e j ≡ j
unfolding sync_notes is_empty
sync_notes-bare e j b = ground arith

pub sync_gate-consistent : (e : Event) (j : Job) → IsBare e → IsConsistent j → sync_gate e j ≡ j
unfolding sync_gate is_empty
sync_gate-consistent e j b c = ground arith

pub sync_role-consistent :
    (s : State) (k : Kind) (j : Job)
    → j.state ≡ s
    → j.kind ≡ k
    → IsConsistent j
    → sync_role s k j ≡ j
unfolding sync_role
sync_role-consistent ready build j p q c = ground arith
sync_role-consistent _ _ j p q c = ground arith

pub fold_from-append :
    (j : Job) (xs ys : List Event) → fold_from j (xs ++ ys) ≡ fold_from (fold_from j xs) ys
unfolding fold_from
fold_from-append j [] ys = refl
fold_from-append j (x ∷ xs) ys = fold_from-append (apply_event j x) xs ys

pub fold_from-one : (j : Job) (e : Event) → fold_from j (e ∷ []) ≡ apply_event j e
unfolding fold_from
fold_from-one j e = refl

apply_event-audit :
    (j : Job) (e : Event)
    → is_audit e.kind ≡ true
    → IsBare e
    → IsConsistent j
    → apply_event j e ≡ record j { job_seq = e.job_seq }
unfolding apply_event sync_caps
apply_event-audit j e a b c =
    rw (fold_kind-audit e.kind e j a, sync_notes-bare e j b, sync_gate-consistent e j b c)
      (rw (sync_role-consistent j.state j.kind j refl refl c))

-- Appending an audit event, one whose payload carries no findings, no failed checks and no
-- escalation reason, to any ledger changes nothing of the projection but its cursor.
pub fold-audit :
    (es : List Event) (e : Event)
    → is_audit e.kind ≡ true
    → IsBare e
    → fold (es ++ e ∷ []) ≡ record (fold es) { job_seq = e.job_seq }
unfolding fold
fold-audit es e a b =
    fold_from-append zero_job es (e ∷ [])
    ∙ fold_from-one (fold es) e
    ∙ apply_event-audit (fold es) e a b (fold-IsConsistent es)
