-- ===== src/Store/Claim/Guards.antt =====
-- Who is independent of a job's siblings, in `ClaimReadyJob` of internal/store/queries.go.
use flowbee.Base.{◌≡◌, ◌⊎◌, ◌↔◌, inl, inr, Bool, true, false, List, some, arith, Bool-cases}
use mathlib.Core.List.{Memᴰ}
use flowbee.Base.Lists.{any, any_sound, any_complete}
use flowbee.Job.State.{Role, code_reviewer, merger}
use flowbee.Store.Tables.{Tables}
use flowbee.Store.Slots.{Binding, Fleet}
use flowbee.Store.Slots.Room.{is_text_iff}
use flowbee.Store.Claim.{
  ClaimParams, is_code_reviewer, is_merger, built_sibling, reviewed_sibling, all_jobs,
  is_independent,
}

any_iff_none :
    {A : Type 0} (p : A → Bool) (P : A → Type 0) (xs : List A)
    → ((x : A) → (p x ≡ true) ↔ P x)
    → (any p xs ≡ false) ↔ ((x : A) → Memᴰ x xs → ¬ P x)
any_iff_none p P xs iff = (
  λ h x m y. absurd (ground (arith, any_complete p x xs m ((iff x).1 y))),
  λ free. elim (Bool-cases (any p xs)) [
    | inr none_hits ↦ none_hits
    | inl hits ↦ let (x, m, hit) = any_sound p xs hits in absurd (free x m ((iff x).0 hit))
  ],
)

module _ (p : ClaimParams) (db : Tables) (fleet : Fleet) where
  -- The job was built on this row, by the claimant or by a worker of its family.
  abbrev pub Built : Binding → Type 0
  Built sib =
      (db.build.eng_worker_job ≡ some sib.id)
      × ((sib.bound_identity ≡ some p.identity) ⊎ (sib.bound_model_family ≡ some p.model_family))

  -- The job was reviewed on this row, by the claimant.
  abbrev pub Reviewed : Binding → Type 0
  Reviewed sib = (db.build.code_reviewer_job ≡ some sib.id) × (sib.bound_identity ≡ some p.identity)

  built_sibling_iff : (sib : Binding) → (built_sibling p db sib ≡ true) ↔ Built sib
  unfolding built_sibling
  built_sibling_iff sib = ground (
    arith,
    is_text_iff db.build.eng_worker_job sib.id,
    is_text_iff sib.bound_identity p.identity,
    is_text_iff sib.bound_model_family p.model_family,
  )

  reviewed_sibling_iff : (sib : Binding) → (reviewed_sibling p db sib ≡ true) ↔ Reviewed sib
  unfolding reviewed_sibling
  reviewed_sibling_iff sib = ground (
    arith,
    is_text_iff db.build.code_reviewer_job sib.id,
    is_text_iff sib.bound_identity p.identity,
  )

  -- A code reviewer built no row, and a merger reviewed none.
  abbrev pub IsUninvolved : Type 0
  IsUninvolved =
      (p.role ≡ code_reviewer → (sib : Binding) → Memᴰ sib (all_jobs db fleet) → ¬ Built sib)
      × (p.role ≡ merger → (sib : Binding) → Memᴰ sib (all_jobs db fleet) → ¬ Reviewed sib)

  is_code_reviewer_iff : (r : Role) → (is_code_reviewer r ≡ true) ↔ (r ≡ code_reviewer)
  unfolding is_code_reviewer
  is_code_reviewer_iff r = ground arith

  is_merger_iff : (r : Role) → (is_merger r ≡ true) ↔ (r ≡ merger)
  unfolding is_merger
  is_merger_iff r = ground arith

  pub is_independent_iff : (is_independent p db fleet ≡ true) ↔ IsUninvolved
  unfolding is_independent
  is_independent_iff =
      let rows = all_jobs db fleet in
      let built = any_iff_none (built_sibling p db) Built rows built_sibling_iff in
      let reviewed = any_iff_none (reviewed_sibling p db) Reviewed rows reviewed_sibling_iff in
      (
        λ h. (
          λ r. built.0 (ground (arith, is_code_reviewer_iff p.role)),
          λ r. reviewed.0 (ground (arith, is_merger_iff p.role)),
        ),
        λ (b, r). elim (Bool-cases (is_code_reviewer p.role)) [
          | inl c ↦
              let none_built = built.1 (b ((is_code_reviewer_iff p.role).0 c)) in
              ground (arith, none_built, is_code_reviewer_iff p.role, is_merger_iff p.role)
          | inr c ↦ elim (Bool-cases (is_merger p.role)) [
            | inl m ↦
                let none_reviewed = reviewed.1 (r ((is_merger_iff p.role).0 m)) in
                ground (arith, none_reviewed)
            | inr m ↦ ground arith
          ]
        ],
      )
