-- ===== src/Flow/Clashes.antt =====
-- An override of internal/flow/resolve.go against the reviewers of a fan-out, and the decision rules.
use flowbee.Base.{
  ◌≡◌, refl, inl, inr, ◌⊎◌, Bool, true, false, not, ◌&&◌, List, ◌∷◌, none, some, Bool-cases,
  Option-cases,
}
use flowbee.Base.Text.{Text, bytes, is_empty, text_eq_refl}
use flowbee.Flow.{
  Identity, ResolvedActor, ResolveOptions, Stage, ReviewerSlot, Resolution, ok, err, FlowError,
  unknown_id, at_reviewer, staffs_both, get, resolve_layers, resolve_identity,
}
use flowbee.Flow.Resolve.{
  first_lens, check_from, check_anti_affinity, resolve_reviewers, resolve_fan_out, resolve_stage,
  is_dropped, overrides_of, has_reviewers,
}

Resolution-cases :
    {A : Type 0} (x : Resolution A) → ((e : FlowError) × (x ≡ err e)) ⊎ ((a : A) × (x ≡ ok a))
Resolution-cases (ok a) = inr (a, refl)
Resolution-cases (err e) = inl (e, refl)

abbrev actor : Text → Text → Identity → Text → ResolvedActor
actor stage role i lens = record { stage = stage; role = role; lens = lens; identity = i }

-- Two reviewers of one identity are refused.
same_twice :
    (stage role : Text) (families : Bool) (i : Identity) (l m : Text) (rest : List ResolvedActor)
    → check_anti_affinity stage (actor stage role i l ∷ actor stage role i m ∷ rest) families
      ≡ err (staffs_both stage i.id l m)
unfolding check_anti_affinity check_from first_lens
same_twice stage role families i l m rest =
    elim (Bool-cases (families && not (is_empty i.model_family))) [
      | inl hard ↦ rw (hard, text_eq_refl i.id) refl
      | inr soft ↦ rw (soft, text_eq_refl i.id) refl
    ]

job_layer :
    (reg : List Identity) (role_default : Text) (opt : ResolveOptions) (name flow_level : Text)
    (i : Identity)
    → is_empty (opt.job_overrides name) ≡ false
    → get reg (opt.job_overrides name) ≡ some i
    → resolve_identity reg role_default (overrides_of opt name flow_level) ≡ ok i
unfolding resolve_identity resolve_layers overrides_of
job_layer reg role_default opt name flow_level i given found = rw (given, found) refl

job_unknown :
    (reg : List Identity) (role_default : Text) (opt : ResolveOptions) (name flow_level : Text)
    → is_empty (opt.job_overrides name) ≡ false
    → get reg (opt.job_overrides name) ≡ none
    → resolve_identity reg role_default (overrides_of opt name flow_level)
      ≡ err (unknown_id (bytes "job") (opt.job_overrides name))
unfolding resolve_identity resolve_layers overrides_of
job_unknown reg role_default opt name flow_level given missing = rw (given, missing) refl

fan_out_fails :
    (reg : List Identity) (role_default : Text) (opt : ResolveOptions) (name : Text) (st : Stage)
    (a b : ReviewerSlot) (slots : List ReviewerSlot)
    → st.reviewers ≡ a ∷ b ∷ slots
    → is_empty (opt.job_overrides name) ≡ false
    → (e : FlowError) × (resolve_fan_out reg role_default opt name st ≡ err e)
unfolding resolve_fan_out resolve_reviewers
fan_out_fails reg role_default opt name st a b slots two given =
    elim (Option-cases (get reg (opt.job_overrides name))) [
      | inl missing ↦
          let e = unknown_id (bytes "job") (opt.job_overrides name) in
          (
            at_reviewer name a.identity e,
            rw (two, job_unknown reg role_default opt name a.identity given missing) refl,
          )
      | inr (i, found) ↦
          let first = job_layer reg role_default opt name a.identity i given found in
          let second = job_layer reg role_default opt name b.identity i given found in
          elim (Resolution-cases (resolve_reviewers reg role_default opt name st slots)) [
            | inl (e, bad) ↦ (e, rw (two, first, second, bad) refl)
            | inr (more, good) ↦ (
              staffs_both name i.id a.lens b.lens,
              rw
                  (
                    two,
                    first,
                    second,
                    good,
                    same_twice name st.role opt.require_distinct_model_family i a.lens b.lens more,
                  )
                  refl,
            )
          ]
    ]

-- An override of a job cannot staff a fan-out. A stage that is kept and has two reviewers or more does not
-- resolve under a job's override, whatever the override and the reviewers are.
pub resolve_stage-clashes :
    (reg : List Identity) (defaults : Text → Text) (opt : ResolveOptions) (name : Text) (st : Stage)
    (a b : ReviewerSlot) (slots : List ReviewerSlot)
    → is_dropped opt name st ≡ false
    → st.reviewers ≡ a ∷ b ∷ slots
    → is_empty (opt.job_overrides name) ≡ false
    → (e : FlowError) × (resolve_stage reg defaults opt name st ≡ err e)
unfolding resolve_stage has_reviewers
resolve_stage-clashes reg defaults opt name st a b slots kept two given =
    let (e, fails) = fan_out_fails reg (defaults st.role) opt name st a b slots two given in
    let many : has_reviewers st.reviewers ≡ true = rw two refl in (e, rw (kept, many) fails)
