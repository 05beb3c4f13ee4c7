-- ===== src/Flow/Independence.antt =====
-- The anti-affinity of internal/flow/resolve.go: whom a resolved flow staffs its reviews with.
use flowbee.Base.{
  ◌≡◌, refl, sym, subst, inl, inr, List, [], ◌∷◌, some, arith, Bool-cases, Option-cases,
}
use flowbee.Base.Text.{Text, is_empty, text_eq, text_lt, text_eq_iff}
use flowbee.Base.Sorting.{sort_stable}
use flowbee.Flow.{
  Identity, ResolvedActor, ResolvedStage, ResolveOptions, Stage, ReviewerSlot, Resolution, ok, err,
  FlowError, get, resolve_layers, resolve_identity, ◌>>=◌, wrap,
}
use flowbee.Flow.Resolve.{
  any_override, has_reviewers, check_anti_affinity, resolve_reviewers, resolve_fan_out,
  resolve_single, resolve_stage, resolve_stages, resolve, staffed_stage, dropped_stage, is_dropped,
}
use flowbee.Flow.AntiAffinity.{AllOf, Independent, check_from-Independent}

-- The identity of an actor is the one that the registry has under its id.
abbrev pub IsRegistered : List Identity → ResolvedActor → Type 0
IsRegistered reg a = get reg a.identity.id ≡ some a.identity

get-id : (reg : List Identity) (id : Text) (i : Identity) → get reg id ≡ some i → i.id ≡ id
unfolding get
get-id [] id i h = absurd (ground (arith, h))
get-id (j ∷ reg) id i h = elim (Bool-cases (text_eq j.id id)) [
  | inl e ↦ ground (arith, e, h, text_eq_iff j.id id)
  | inr e ↦ get-id reg id i (rw e at h)
]

resolve_layers-IsRegistered :
    (reg : List Identity) (layers : List (Text × Text)) (i : Identity)
    → resolve_layers reg layers ≡ ok i
    → get reg i.id ≡ some i
unfolding resolve_layers
resolve_layers-IsRegistered reg [] i h = absurd (ground (arith, h))
resolve_layers-IsRegistered reg ((layer, id) ∷ rest) i h = elim (Bool-cases (is_empty id)) [
  | inl e ↦ resolve_layers-IsRegistered reg rest i (rw e at h)
  | inr e ↦ elim (Option-cases (get reg id)) [
    | inl missing ↦ absurd (ground (arith, rw (e, missing) at h))
    | inr (j, found) ↦
        let same : j ≡ i = ground (arith, rw (e, found) at h) in
        subst (λ k. get reg k.id ≡ some k) same
          (subst (λ t. get reg t ≡ some j) (sym (get-id reg id j found)) found)
  ]
]

bind-ok :
    {A B : Type 0} (x : Resolution A) (f : A → Resolution B) (b : B)
    → (x >>= f) ≡ ok b
    → (a : A) × (x ≡ ok a) × (f a ≡ ok b)
bind-ok (ok a) f b h = (a, refl, h)
bind-ok (err e) f b h = absurd (ground (arith, h))

wrap-ok :
    {A : Type 0} (f : FlowError → FlowError) (x : Resolution A) (a : A) → wrap f x ≡ ok a → x ≡ ok a
wrap-ok f (ok b) a h = h
wrap-ok f (err e) a h = absurd (ground (arith, h))

ok-inj : {A : Type 0} (a b : A) → ok a ≡ ok b → a ≡ b
ok-inj a b h = ground (arith, h)

-- A resolved stage with its actors from the registry, and its reviewers apart.
pub record IsStaffed (reg : List Identity) (opt : ResolveOptions) (rs : ResolvedStage)
    : Type 0 where
  pub registered : AllOf (IsRegistered reg) rs.actors
  pub independent : Independent opt.require_distinct_model_family rs.actors

resolve_reviewers-IsRegistered :
    (reg : List Identity) (role_default : Text) (opt : ResolveOptions) (name : Text) (st : Stage)
    (slots : List ReviewerSlot) (actors : List ResolvedActor)
    → resolve_reviewers reg role_default opt name st slots ≡ ok actors
    → AllOf (IsRegistered reg) actors
unfolding resolve_reviewers resolve_identity
resolve_reviewers-IsRegistered reg role_default opt name st [] actors h =
    subst (AllOf (IsRegistered reg)) (ok-inj [] actors h) tt
resolve_reviewers-IsRegistered reg role_default opt name st (slot ∷ slots) actors h =
    let (i, found, h1) = bind-ok _ _ actors h in
    let (more, rest, h2) = bind-ok _ _ actors h1 in
    let staffed : List ResolvedActor =
      record { stage = name; role = st.role; lens = slot.lens; identity = i } ∷ more in
    subst (AllOf (IsRegistered reg)) (ok-inj staffed actors h2) (
      resolve_layers-IsRegistered reg _ i (wrap-ok _ _ i found),
      resolve_reviewers-IsRegistered reg role_default opt name st slots more rest,
    )

resolve_fan_out-IsStaffed :
    (reg : List Identity) (role_default : Text) (opt : ResolveOptions) (name : Text) (st : Stage)
    (rs : ResolvedStage)
    → resolve_fan_out reg role_default opt name st ≡ ok rs
    → IsStaffed reg opt rs
unfolding resolve_fan_out check_anti_affinity staffed_stage
resolve_fan_out-IsStaffed reg role_default opt name st rs h =
    let (actors, found, h1) = bind-ok _ _ rs h in
    let (_, checked, h2) = bind-ok _ _ rs h1 in
    let e = ok-inj _ rs h2 in
    subst (IsStaffed reg opt) e (record {
      registered =
          resolve_reviewers-IsRegistered reg role_default opt name st st.reviewers actors found;
      independent =
          (check_from-Independent name opt.require_distinct_model_family [] [] actors checked).1;
    })

resolve_single-IsStaffed :
    (reg : List Identity) (role_default : Text) (opt : ResolveOptions) (name : Text) (st : Stage)
    (rs : ResolvedStage)
    → resolve_single reg role_default opt name st ≡ ok rs
    → IsStaffed reg opt rs
unfolding resolve_single resolve_identity staffed_stage
resolve_single-IsStaffed reg role_default opt name st rs h =
    elim (Bool-cases (
      any_override
        (st.identity ∷ opt.epic_overrides name ∷ opt.job_overrides name ∷ role_default ∷ []))) [
          | inr unnamed ↦
              let e = ok-inj _ rs (rw unnamed at h) in
              subst (IsStaffed reg opt) e (record { registered = tt; independent = tt })
          | inl named ↦
              let (i, found, h1) = bind-ok _ _ rs (rw named at h) in
              let actor : ResolvedActor = record {
                stage = name;
                role = st.role;
                lens = i.review_lens;
                identity = i;
              } in
              subst (IsStaffed reg opt) (ok-inj (staffed_stage name st (actor ∷ [])) rs h1)
                (record {
                  registered = (resolve_layers-IsRegistered reg _ i (wrap-ok _ _ i found), tt);
                  independent = (tt, tt);
                })
        ]

resolve_stage-IsStaffed :
    (reg : List Identity) (defaults : Text → Text) (opt : ResolveOptions) (name : Text) (st : Stage)
    (rs : ResolvedStage)
    → resolve_stage reg defaults opt name st ≡ ok rs
    → IsStaffed reg opt rs
unfolding resolve_stage dropped_stage
resolve_stage-IsStaffed reg defaults opt name st rs h = elim (Bool-cases (is_dropped opt name st)) [
  | inl gone ↦
      let e = ok-inj _ rs (rw gone at h) in
      subst (IsStaffed reg opt) e (record { registered = tt; independent = tt })
  | inr kept ↦ elim (Bool-cases (has_reviewers st.reviewers)) [
    | inl many ↦
        resolve_fan_out-IsStaffed reg (defaults st.role) opt name st rs (rw (kept, many) at h)
    | inr one ↦ resolve_single-IsStaffed reg (defaults st.role) opt name st rs (rw (kept, one) at h)
  ]
]

stages-IsStaffed :
    (reg : List Identity) (defaults : Text → Text) (opt : ResolveOptions)
    (stages : List (Text × Stage)) (out : List ResolvedStage)
    → resolve_stages reg defaults opt stages ≡ ok out
    → AllOf (IsStaffed reg opt) out
unfolding resolve_stages
stages-IsStaffed reg defaults opt [] out h =
    let e = ok-inj [] out h in subst (AllOf (IsStaffed reg opt)) e tt
stages-IsStaffed reg defaults opt ((name, st) ∷ rest) out h =
    let (rs, first, h1) = bind-ok _ _ out h in
    let (more, others, h2) = bind-ok _ _ out h1 in
    subst (AllOf (IsStaffed reg opt)) (ok-inj (rs ∷ more) out h2) (
      resolve_stage-IsStaffed reg defaults opt name st rs first,
      stages-IsStaffed reg defaults opt rest more others,
    )

-- A flow that resolves is staffed independently. In every stage of it each actor has the identity that
-- the registry has under its id, no two actors have the same id, and none share a known model family
-- where distinct families are required.
pub resolve-IsStaffed :
    (reg : List Identity) (defaults : Text → Text) (opt : ResolveOptions)
    (stages : List (Text × Stage)) (out : List ResolvedStage)
    → resolve reg defaults opt stages ≡ ok out
    → AllOf (IsStaffed reg opt) out
unfolding resolve
resolve-IsStaffed reg defaults opt stages out h =
    stages-IsStaffed reg defaults opt (sort_stable (λ a b. text_lt a.0 b.0) stages) out h
