-- ===== src/Store/Row/Replay.antt =====
-- A row of internal/store that agrees with the replay of its events, and the event that is appended
-- to it.
use flowbee.Base.{◌≡◌, refl, subst, sym, ap, ◌∙◌, List, [], ◌∷◌, ◌++◌, inl, inr, Bool-cases}
use flowbee.Job.State.{State, ready, Kind, build}
use flowbee.Job.Record.{Job}
use flowbee.Ledger.Event.{Event}
use flowbee.Ledger.Fold.{
  fold, apply_event, fold_kind, sync_notes, sync_gate, sync_caps, sync_role, is_human_gate,
}
use flowbee.Ledger.Fold.Invariants.{IsConsistent, fold-IsConsistent}
use flowbee.Ledger.Fold.Audit.{
  IsBare, sync_notes-bare, sync_gate-consistent, sync_role-consistent, fold_from-append,
  fold_from-one,
}
use flowbee.Job.Record.{zero_job}
use flowbee.Store.Row.{JobStore, logged}

-- The row and the fold of the events agree on every column that the events carry.
abbrev pub IsReplayed : JobStore → Type 0
IsReplayed st = logged st.job ≡ logged (fold st.events)

-- A function that reads no column that the events do not carry.
abbrev pub ReadsLogged : (Job → Job) → Type 0
ReadsLogged f = (j : Job) → logged (f j) ≡ logged (f (logged j))

compose-ReadsLogged : (f g : Job → Job) → ReadsLogged f → ReadsLogged g → ReadsLogged (λ j. g (f j))
compose-ReadsLogged f g rf rg j = rg (f j) ∙ ap (λ r. logged (g r)) (rf j) ∙ sym (rg (f (logged j)))

sync_role-ReadsLogged : (s : State) (k : Kind) → ReadsLogged (sync_role s k)
unfolding sync_role logged
sync_role-ReadsLogged ready build j = refl
sync_role-ReadsLogged _ _ j = refl

sync_caps-ReadsLogged : ReadsLogged sync_caps
unfolding sync_caps logged
sync_caps-ReadsLogged j = sync_role-ReadsLogged j.state j.kind j

sync_gate-ReadsLogged : (e : Event) → ReadsLogged (sync_gate e)
unfolding sync_gate logged
sync_gate-ReadsLogged e j = elim (Bool-cases (is_human_gate j.state)) [
  | inl h ↦ rw h refl
  | inr h ↦ rw h refl
]

sync_notes-ReadsLogged : (e : Event) → ReadsLogged (sync_notes e)
unfolding sync_notes logged
sync_notes-ReadsLogged e j = refl

with_seq : Event → Job → Job
with_seq e j = record j { job_seq = e.job_seq }

with_seq-ReadsLogged : (e : Event) → ReadsLogged (with_seq e)
unfolding with_seq logged
with_seq-ReadsLogged e j = refl

-- A round of `Fold` reads no more than the case of the event's kind does.
pub apply_event-ReadsLogged :
    (e : Event) → ReadsLogged (fold_kind e.kind e) → ReadsLogged (λ j. apply_event j e)
unfolding apply_event with_seq
apply_event-ReadsLogged e r =
    compose-ReadsLogged (λ j. sync_caps (sync_gate e (sync_notes e (fold_kind e.kind e j))))
      (with_seq e)
      (compose-ReadsLogged (λ j. sync_gate e (sync_notes e (fold_kind e.kind e j))) sync_caps
        (compose-ReadsLogged (λ j. sync_notes e (fold_kind e.kind e j)) (sync_gate e)
          (compose-ReadsLogged (fold_kind e.kind e) (sync_notes e) r (sync_notes-ReadsLogged e))
          (sync_gate-ReadsLogged e))
        sync_caps-ReadsLogged)
      (with_seq-ReadsLogged e)

pub fold-append : (es : List Event) (e : Event) → fold (es ++ e ∷ []) ≡ apply_event (fold es) e
unfolding fold
fold-append es e = fold_from-append zero_job es (e ∷ []) ∙ fold_from-one (fold es) e

-- An event whose case leaves a consistent projection and whose payload is bare adds nothing else.
pub apply_event-settled :
    (j r : Job) (e : Event)
    → fold_kind e.kind e j ≡ r
    → IsBare e
    → IsConsistent r
    → apply_event j e ≡ record r { job_seq = e.job_seq }
unfolding apply_event sync_caps
apply_event-settled j r e k b c =
    rw (k, sync_notes-bare e r b, sync_gate-consistent e r b c)
      (rw (sync_role-consistent r.state r.kind r refl refl c) refl)

-- A row that is updated the way the appended event folds agrees with the events again.
pub append-IsReplayed :
    (st : JobStore) (e : Event) (row : Job)
    → ReadsLogged (fold_kind e.kind e)
    → IsReplayed st
    → logged row ≡ logged (apply_event st.job e)
    → IsReplayed (record { job = row; events = st.events ++ e ∷ [] })
append-IsReplayed st e row r same h =
    let reads = apply_event-ReadsLogged e r in
    h
    ∙ reads st.job
    ∙ ap (λ j. logged (apply_event j e)) same
    ∙ sym (reads (fold st.events))
    ∙ ap logged (sym (fold-append st.events e))

logged-IsConsistent : (j : Job) → IsConsistent j → IsConsistent (logged j)
unfolding logged
logged-IsConsistent j c = record {
  reason_gated = c.reason_gated;
  budget_gated = c.budget_gated;
  ready_build = c.ready_build;
  authoring = c.authoring;
  reviewing = c.reviewing;
  resolving = c.resolving;
}

IsConsistent-logged : (j : Job) → IsConsistent (logged j) → IsConsistent j
unfolding logged
IsConsistent-logged j c = record {
  reason_gated = c.reason_gated;
  budget_gated = c.budget_gated;
  ready_build = c.ready_build;
  authoring = c.authoring;
  reviewing = c.reviewing;
  resolving = c.resolving;
}

-- Such a row is as consistent as every projection is.
pub replayed-IsConsistent : (st : JobStore) → IsReplayed st → IsConsistent st.job
replayed-IsConsistent st same = IsConsistent-logged st.job (
    subst IsConsistent (sym same)
      (logged-IsConsistent (fold st.events) (fold-IsConsistent st.events)))
