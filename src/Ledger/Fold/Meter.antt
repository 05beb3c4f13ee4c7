-- ===== src/Ledger/Fold/Meter.antt =====
-- The cost meter of a projection is the sum of the reported deltas.
use flowbee.Base.{◌≡◌, sym, ◌∙◌, ap, List, [], ◌∷◌, arith}
use flowbee.Base.Int.{ℤ, pos, ◌+ℤ◌, +ℤ_assoc, int_laws}
use flowbee.Job.Record.{Job, zero_job}
use flowbee.Ledger.Event.{Event, EventKind}
use flowbee.Ledger.Event.EventKind.{job_created, cost_metered, cost_escalated}
use flowbee.Ledger.Fold.{fold_kind, sync_notes, sync_gate, sync_caps, apply_event, fold_from, fold}

-- What one event reports, in micro-dollars: only the two cost events report anything.
reported : EventKind → Event → ℤ
reported cost_metered e = e.payload.cost_micro_usd_delta
reported cost_escalated e = e.payload.cost_micro_usd_delta
reported _ e = pos 0

pub spent : List Event → ℤ
unfolding reported
spent [] = pos 0
spent (e ∷ es) = reported e.kind e +ℤ spent es

+ℤ_zero : (a : ℤ) → a +ℤ pos 0 ≡ a
+ℤ_zero a = omega int_laws

fold_kind-cost :
    (k : EventKind) (e : Event) (j : Job)
    → (fold_kind k e j).cost_micro_usd ≡ j.cost_micro_usd +ℤ reported k e
unfolding fold_kind reported
fold_kind-cost job_created e j = ground (arith, +ℤ_zero j.cost_micro_usd)
fold_kind-cost _ e j = ground (arith, +ℤ_zero j.cost_micro_usd)

sync-cost :
    (e : Event) (j : Job)
    → (sync_caps (sync_gate e (sync_notes e j))).cost_micro_usd ≡ j.cost_micro_usd
unfolding sync_caps sync_gate sync_notes
sync-cost e j = ground arith

apply_event-cost :
    (j : Job) (e : Event) → (apply_event j e).cost_micro_usd ≡ j.cost_micro_usd +ℤ reported e.kind e
unfolding apply_event
apply_event-cost j e = sync-cost e (fold_kind e.kind e j) ∙ fold_kind-cost e.kind e j

fold_from-cost :
    (j : Job) (es : List Event) → (fold_from j es).cost_micro_usd ≡ j.cost_micro_usd +ℤ spent es
unfolding fold_from spent
fold_from-cost j [] = sym (+ℤ_zero j.cost_micro_usd)
fold_from-cost j (e ∷ es) =
    fold_from-cost (apply_event j e) es
    ∙ ap (λ c. c +ℤ spent es) (apply_event-cost j e)
    ∙ +ℤ_assoc j.cost_micro_usd (reported e.kind e) (spent es)

-- The meter of a projection is exactly the sum of what the cost events of its ledger reported.
pub fold-cost : (es : List Event) → (fold es).cost_micro_usd ≡ spent es
unfolding fold zero_job
fold-cost es = fold_from-cost zero_job es ∙ zero_+ℤ (spent es)
  where
    zero_+ℤ : (a : ℤ) → pos 0 +ℤ a ≡ a
    zero_+ℤ a = omega int_laws
