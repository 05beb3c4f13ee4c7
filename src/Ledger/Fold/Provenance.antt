-- ===== src/Ledger/Fold/Provenance.antt =====
-- Where a projection's verdict comes from.
use mathlib.Core.List.{Memᴰ}
use flowbee.Base.{◌≡◌, refl, sym, ◌∙◌, ◌⊎◌, inl, inr, List, [], ◌∷◌, some, arith}
use flowbee.Job.Verdict.{Verdict}
use flowbee.Job.Record.{Job, zero_job}
use flowbee.Ledger.Event.{Event, EventKind}
use flowbee.Ledger.Event.EventKind.{job_created, verdict_minted}
use flowbee.Ledger.Fold.{fold_kind, sync_notes, sync_gate, sync_caps, apply_event, fold_from, fold}

-- A verdict after the event was there before it, or the event minted it.
fold_kind-verdict :
    (k : EventKind) (e : Event) (j : Job) (v : Verdict)
    → (fold_kind k e j).verdict ≡ some v
    → (j.verdict ≡ some v) ⊎ ((k ≡ verdict_minted) × (e.payload.verdict ≡ some v))
unfolding fold_kind
fold_kind-verdict job_created e j v h = ground arith
fold_kind-verdict _ e j v h = ground arith

sync-verdict :
    (e : Event) (j : Job) → (sync_caps (sync_gate e (sync_notes e j))).verdict ≡ j.verdict
unfolding sync_caps sync_gate sync_notes
sync-verdict e j = ground arith

apply_event-verdict :
    (j : Job) (e : Event) (v : Verdict)
    → (apply_event j e).verdict ≡ some v
    → (j.verdict ≡ some v) ⊎ ((e.kind ≡ verdict_minted) × (e.payload.verdict ≡ some v))
unfolding apply_event
apply_event-verdict j e v h =
    fold_kind-verdict e.kind e j v (sym (sync-verdict e (fold_kind e.kind e j)) ∙ h)

-- An event of the ledger that mints this verdict.
abbrev pub Mints : Verdict → List Event → Type 0
Mints v es = (e : Event) × Memᴰ e es × (e.kind ≡ verdict_minted) × (e.payload.verdict ≡ some v)

fold_from-verdict :
    (j : Job) (es : List Event) (v : Verdict)
    → (fold_from j es).verdict ≡ some v
    → (j.verdict ≡ some v) ⊎ Mints v es
unfolding fold_from
fold_from-verdict j [] v h = inl h
fold_from-verdict j (e ∷ es) v h = elim (fold_from-verdict (apply_event j e) es v h) [
  | inr (e', m, k, p) ↦ inr (e', Memᴰ.tail m, k, p)
  | inl here ↦ elim (apply_event-verdict j e v here) [
    | inl old ↦ inl old
    | inr (k, p) ↦ inr (e, Memᴰ.head refl, k, p)
  ]
]

-- A worker never writes a verdict: whatever events a ledger holds, a verdict on the projection was
-- carried by a `verdict_minted` event of that ledger.
pub fold-verdict : (es : List Event) (v : Verdict) → (fold es).verdict ≡ some v → Mints v es
unfolding fold zero_job
fold-verdict es v h = elim (fold_from-verdict zero_job es v h) [
  | inl none_is_some ↦ absurd (ground arith)
  | inr found ↦ found
]
