-- ===== src/Flow.antt =====
-- internal/flow: identities (identity.go), the stages of a configurable flow (flow.go), and how
-- resolve.go staffs them. A map of the source that is only read is a function or a list of its entries.
pub mod Resolve
pub mod AntiAffinity
pub mod Independence
pub mod Clashes
use flowbee.Base.{
  ℕ, ◌+◌, ◌*◌, ◌==◌, Bool, true, false, not, ◌&&◌, ◌||◌, if◌then◌else◌, List, [], ◌∷◌, Option, none,
  some, ltb,
}
use flowbee.Base.Text.{Text, bytes, is_empty, text_eq, text_lt}
use flowbee.Base.Int.{ℤ}
use flowbee.Base.Lists.{any, keep, length}
use flowbee.Base.Sorting.{sort_stable}

pub record Identity : Type 0 where
  pub id : Text
  pub role : Text
  pub stage : Text
  pub review_lens : Text
  pub source_slug : Text
  pub display_name : Text
  pub role_name : Text
  pub tagline : Text
  pub model : Text
  pub model_tier : Text
  pub model_family : Text
  pub lens : Text

-- `Registry`: the identities under their ids, which the loader keeps distinct.
unfoldable pub get : List Identity → Text → Option Identity
get [] id = none
get (i ∷ reg) id = let rest = get reg id in if text_eq i.id id then some i else rest

only_id : List Identity → Text
only_id (i ∷ []) = i.id
only_id _ = []

-- `RoleDefaults`: a role without a default has the empty id.
unfoldable pub role_defaults : List Identity → Text → Text
unfolding only_id
role_defaults reg role = if is_empty role then [] else only_id (keep (λ i. text_eq i.role role) reg)

pub record Overrides : Type 0 where
  pub flow : Text
  pub epic : Text
  pub job : Text

pub data FlowError : Type 0 where
  no_identity : FlowError
  unknown_id : Text → Text → FlowError
  staffs_both : Text → Text → Text → Text → FlowError
  shares_family : Text → Text → Text → Text → FlowError
  at_reviewer : Text → Text → FlowError → FlowError
  at_stage : Text → FlowError → FlowError
  unknown_decision : Text → FlowError

pub data Resolution (A : Type 0) : Type 0 where
  ok : A → Resolution A
  err : FlowError → Resolution A

infixl 5 ◌>>=◌
abbrev pub ◌>>=◌ : {A B : Type 0} → Resolution A → (A → Resolution B) → Resolution B
ok a >>= f = f a
err e >>= f = err e

-- `fmt.Errorf("…: %w", err)`
abbrev pub wrap : {A : Type 0} → (FlowError → FlowError) → Resolution A → Resolution A
wrap f (ok a) = ok a
wrap f (err e) = err (f e)

-- The loop over the layers, the most specific one first.
unfoldable pub resolve_layers : List Identity → List (Text × Text) → Resolution Identity
resolve_layers reg [] = err no_identity
resolve_layers reg ((layer, id) ∷ rest) =
    let further = resolve_layers reg rest in
    if is_empty id
    then further
    else elim (get reg id) [ none ↦ err (unknown_id layer id) | some i ↦ ok i ]

unfoldable pub resolve_identity : List Identity → Text → Overrides → Resolution Identity
resolve_identity reg role_default ov = resolve_layers reg (
    (bytes "job", ov.job)
    ∷ (bytes "epic", ov.epic)
    ∷ (bytes "flow", ov.flow)
    ∷ (bytes "role", role_default)
    ∷ [])

pub record ReviewerSlot : Type 0 where
  pub identity : Text
  pub lens : Text

pub record Stage : Type 0 where
  pub role : Text
  pub needs : List Text
  pub gate : Bool
  pub when : Text
  pub context : Text
  pub max_bounces : ℤ
  pub optional : Bool
  pub identity : Text
  pub decision : Text
  pub reviewers : List ReviewerSlot

pub record ResolvedActor : Type 0 where
  pub stage : Text
  pub role : Text
  pub lens : Text
  pub identity : Identity

pub record ResolvedStage : Type 0 where
  pub name : Text
  pub role : Text
  pub gate : Bool
  pub decision : Text
  pub actors : List ResolvedActor
  pub skipped : Bool
  pub system : Bool

-- A missing override is the empty id. A nil `IncludeOptional` is `none`.
pub record ResolveOptions : Type 0 where
  pub epic_overrides : Text → Text
  pub job_overrides : Text → Text
  pub include_optional : Option (Text → Bool)
  pub require_distinct_model_family : Bool
