-- ===== src/Store/Lifecycle/Rounds.antt =====
-- A round of `Fold` of internal/ledger/ledger.go for an event that ends the lease of a build.
use flowbee.Base.{
  ◌≡◌, refl, ◌∙◌, ap, inl, inr, Bool-cases, Bool, true, false, [], arith, if◌then◌else◌,
}
use flowbee.Base.Text.{Text, is_empty}
use flowbee.Job.State.{
  State, ready, resolving_conflict, spec_authoring, spec_review, Kind, build, eng_worker,
  conflict_resolver, role_caps,
}
use flowbee.Job.Record.{Job}
use flowbee.Ledger.Event.{Event}
use flowbee.Ledger.Fold.{
  apply_event, fold_kind, sync_notes, sync_gate, sync_caps, sync_role, is_human_gate,
}
use flowbee.Ledger.Cases.Shared.{is_ready, set_if}
use flowbee.Ledger.Fold.Invariants.{HasRole}

abbrev pub is_spec_stage : State → Bool
is_spec_stage spec_authoring = true
is_spec_stage spec_review = true
is_spec_stage _ = false

-- What the case of an event that ends a lease leaves: a build that does not go to a spec stage, no mark of
-- a human gate, and a reason only for a human gate.
abbrev pub Revocable : Job → State → Text → Type 0
Revocable j to reason =
    (j.kind ≡ build)
    × (is_spec_stage to ≡ false)
    × (j.escalation_reason ≡ [])
    × (j.over_budget ≡ false)
    × (is_human_gate to ≡ false → reason ≡ [])
    × (to ≡ resolving_conflict → HasRole j conflict_resolver)

-- The update's role clause.
abbrev pub rearmed : State → Job → Job
rearmed to j = record j {
  role = if is_ready to then eng_worker else j.role;
  required_capabilities = if is_ready to then role_caps eng_worker else j.required_capabilities;
}

sync_role-rearmed :
    (to : State) (kind : Kind) (j : Job)
    → kind ≡ build
    → is_spec_stage to ≡ false
    → (to ≡ resolving_conflict → HasRole j conflict_resolver)
    → sync_role to kind j ≡ rearmed to j
unfolding sync_role is_ready
sync_role-rearmed ready build j k s r = refl
sync_role-rearmed ready _ j k s r = absurd (ground arith)
sync_role-rearmed spec_authoring kind j k s r = absurd (ground arith)
sync_role-rearmed spec_review kind j k s r = absurd (ground arith)
sync_role-rearmed resolving_conflict kind j k s r = let (a, b) = r refl in rw (a, b) refl
sync_role-rearmed _ kind j k s r = refl

sync_gate-reason :
    (e : Event) (j : Job)
    → j.escalation_reason ≡ []
    → j.over_budget ≡ false
    → (is_human_gate j.state ≡ false → e.payload.escalation_reason ≡ [])
    → sync_gate e j
      ≡ record j { escalation_reason = set_if e.payload.escalation_reason j.escalation_reason }
unfolding sync_gate set_if is_empty
sync_gate-reason e j n b q = elim (Bool-cases (is_human_gate j.state)) [
  | inl h ↦ rw h refl
  | inr h ↦ rw (h, q h, n, b) refl
]

sync_notes-noted :
    (e : Event) (j : Job)
    → e.payload.ci_failures ≡ []
    → sync_notes e j
      ≡ record j { last_review_notes = set_if e.payload.review_notes j.last_review_notes }
unfolding sync_notes set_if is_empty
sync_notes-noted e j b = rw b refl

-- A round of `Fold` for such a result of its case.
pub apply_event-rearmed :
    (j r : Job) (e : Event)
    → fold_kind e.kind e j ≡ r
    → e.payload.ci_failures ≡ []
    → Revocable r r.state e.payload.escalation_reason
    → apply_event j e
      ≡ record (rearmed r.state (record r {
        last_review_notes = set_if e.payload.review_notes r.last_review_notes;
        escalation_reason = set_if e.payload.escalation_reason r.escalation_reason;
      })) { job_seq = e.job_seq }
unfolding apply_event sync_caps
apply_event-rearmed j r e f b (k, s, n, o, q, w) =
    let noted : Job = record r {
      last_review_notes = set_if e.payload.review_notes r.last_review_notes;
    } in
    let gated : Job = record noted {
      escalation_reason = set_if e.payload.escalation_reason r.escalation_reason;
    } in
    ap (λ (x : Job). record (sync_caps (sync_gate e (sync_notes e x))) { job_seq = e.job_seq }) f
    ∙ ap (λ (x : Job). record (sync_caps (sync_gate e x)) { job_seq = e.job_seq })
        (sync_notes-noted e r b)
    ∙ ap (λ (x : Job). record (sync_caps x) { job_seq = e.job_seq })
        (sync_gate-reason e noted n o q)
    ∙ ap (λ (x : Job). record x { job_seq = e.job_seq })
        (sync_role-rearmed r.state r.kind gated k s w)
