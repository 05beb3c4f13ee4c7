-- ===== src/Flow/Resolve.antt =====
-- internal/flow/resolve.go: `FlowDoc.Resolve`, the anti-affinity checks and the aggregation of verdicts.
use flowbee.Base.{
  ◌*◌, ◌==◌, Bool, true, false, not, ◌&&◌, ◌||◌, if◌then◌else◌, List, [], ◌∷◌, Option, none, some,
  ltb,
}
use flowbee.Base.Text.{Text, bytes, is_empty, text_eq, text_lt}
use flowbee.Base.Lists.{any, keep, length}
use flowbee.Base.Sorting.{sort_stable}
use flowbee.Flow.{
  Identity, Overrides, Resolution, ResolveOptions, ResolvedActor, ResolvedStage, ReviewerSlot,
  Stage, resolve_identity, wrap, ◌>>=◌, ok, err, staffs_both, shares_family, at_reviewer, at_stage,
  unknown_decision,
}

abbrev pub decision_all_pass : Text
decision_all_pass = bytes "all_pass"

abbrev pub decision_majority : Text
decision_majority = bytes "majority"

abbrev pub decision_any_veto : Text
decision_any_veto = bytes "any_veto"

unfoldable pub decision_or_default : Text → Text
decision_or_default d = if is_empty d then decision_all_pass else d

-- The lens that first used an id or a family.
unfoldable pub first_lens : List (Text × Text) → Text → Option Text
first_lens [] key = none
first_lens ((k, lens) ∷ seen) key =
    let rest = first_lens seen key in if text_eq k key then some lens else rest

-- The loop, with the ids and the families that it has seen.
unfoldable pub check_from :
    Text → Bool → List (Text × Text) → List (Text × Text) → List ResolvedActor → Resolution Unit
check_from stage families ids fams [] = ok tt
check_from stage families ids fams (a ∷ rest) =
    let i = a.identity in
    let ids' = (i.id, a.lens) ∷ ids in
    let fams' = (i.model_family, a.lens) ∷ fams in
    let plain = check_from stage families ids' fams rest in
    let tracked = check_from stage families ids' fams' rest in
    elim (first_lens ids i.id) [
      | some prev ↦ err (staffs_both stage i.id prev a.lens)
      | none ↦
          if families && not (is_empty i.model_family)
          then elim (first_lens fams i.model_family) [
            | some prev ↦ err (shares_family stage i.model_family prev a.lens)
            | none ↦ tracked
          ]
          else plain
    ]

unfoldable pub check_anti_affinity : Text → List ResolvedActor → Bool → Resolution Unit
check_anti_affinity stage actors families = check_from stage families [] [] actors

unfoldable pub overrides_of : ResolveOptions → Text → Text → Overrides
overrides_of opt name flow_level = record {
  flow = flow_level;
  epic = opt.epic_overrides name;
  job = opt.job_overrides name;
}

-- One actor for each slot.
unfoldable pub resolve_reviewers :
    List Identity
    → Text
    → ResolveOptions
    → Text
    → Stage
    → List ReviewerSlot
    → Resolution (List ResolvedActor)
resolve_reviewers reg role_default opt name st [] = ok []
resolve_reviewers reg role_default opt name st (slot ∷ slots) =
    wrap (at_reviewer name slot.identity)
      (resolve_identity reg role_default (overrides_of opt name slot.identity))
    >>= λ i. resolve_reviewers reg role_default opt name st slots >>= λ actors.
        ok (record { stage = name; role = st.role; lens = slot.lens; identity = i } ∷ actors)

-- `st.Optional && opt.IncludeOptional != nil && !opt.IncludeOptional[name]`
unfoldable pub is_dropped : ResolveOptions → Text → Stage → Bool
is_dropped opt name st =
    st.optional && elim opt.include_optional [ none ↦ false | some keeps ↦ not (keeps name) ]

unfoldable pub dropped_stage : Text → Stage → ResolvedStage
dropped_stage name st = record {
  name = name;
  role = st.role;
  gate = st.gate;
  decision = [];
  actors = [];
  skipped = true;
  system = false;
}

unfoldable pub staffed_stage : Text → Stage → List ResolvedActor → ResolvedStage
staffed_stage name st actors = record {
  name = name;
  role = st.role;
  gate = st.gate;
  decision = decision_or_default st.decision;
  actors = actors;
  skipped = false;
  system = false;
}

unfoldable pub any_override : List Text → Bool
any_override layers = any (λ l. not (is_empty l)) layers

-- A stage with one actor, or one that no layer names an identity for.
unfoldable pub resolve_single :
    List Identity → Text → ResolveOptions → Text → Stage → Resolution ResolvedStage
resolve_single reg role_default opt name st =
    if not (
      any_override
        (st.identity ∷ opt.epic_overrides name ∷ opt.job_overrides name ∷ role_default ∷ []))
    then ok (record (staffed_stage name st []) { system = true })
    else wrap (at_stage name)
        (resolve_identity reg role_default (overrides_of opt name st.identity))
      >>= λ i. ok (
          staffed_stage name st
            (record { stage = name; role = st.role; lens = i.review_lens; identity = i } ∷ []))

unfoldable pub resolve_fan_out :
    List Identity → Text → ResolveOptions → Text → Stage → Resolution ResolvedStage
resolve_fan_out reg role_default opt name st =
    resolve_reviewers reg role_default opt name st st.reviewers >>= λ actors.
    check_anti_affinity name actors opt.require_distinct_model_family >>= λ _.
    ok (staffed_stage name st actors)

unfoldable pub has_reviewers : List ReviewerSlot → Bool
has_reviewers [] = false
has_reviewers (slot ∷ slots) = true

unfoldable pub resolve_stage :
    List Identity → (Text → Text) → ResolveOptions → Text → Stage → Resolution ResolvedStage
resolve_stage reg defaults opt name st =
    if is_dropped opt name st
    then ok (dropped_stage name st)
    else if has_reviewers st.reviewers
    then resolve_fan_out reg (defaults st.role) opt name st
    else resolve_single reg (defaults st.role) opt name st

unfoldable pub resolve_stages :
    List Identity
    → (Text → Text)
    → ResolveOptions
    → List (Text × Stage)
    → Resolution (List ResolvedStage)
resolve_stages reg defaults opt [] = ok []
resolve_stages reg defaults opt ((name, st) ∷ rest) =
    resolve_stage reg defaults opt name st >>= λ rs.
    resolve_stages reg defaults opt rest >>= λ more. ok (rs ∷ more)

-- `FlowDoc.Resolve`
unfoldable pub resolve :
    List Identity
    → (Text → Text)
    → ResolveOptions
    → List (Text × Stage)
    → Resolution (List ResolvedStage)
resolve reg defaults opt stages =
    resolve_stages reg defaults opt (sort_stable (λ a b. text_lt a.0 b.0) stages)

unfoldable pub anti_affinity_builder_vs_reviewers : Identity → List ResolvedActor → Bool → Bool
anti_affinity_builder_vs_reviewers builder reviewers families = not (
    any
      (λ r.
        text_eq r.identity.id builder.id
        || (families
            && not (is_empty builder.model_family)
            && text_eq r.identity.model_family builder.model_family))
      reviewers)

unfoldable pub aggregate_verdicts : Text → List Bool → Resolution Bool
aggregate_verdicts decision passes =
    let d = decision_or_default decision in
    let pass = length (keep (λ p. p) passes) in
    if text_eq d decision_all_pass || text_eq d decision_any_veto
    then ok (pass == length passes)
    else if text_eq d decision_majority
    then ok (ltb (length passes) (pass * 2))
    else err (unknown_decision decision)
