-- ===== src/Job/Caps/Match.antt =====
-- What the capability match of internal/job/job.go accepts.
use flowbee.Base.{◌≡◌, ◌≢◌, ◌⊎◌, ◌↔◌, refl, sym, true, List, [], ◌∷◌, ◌++◌, arith, subst}
use mathlib.Core.List.{Memᴰ}
use flowbee.Base.Text.{Text, text_eq, text_eq_iff}
use flowbee.Base.Strings.{starts_with, starts_with_iff}
use flowbee.Base.Lists.{any_sound, any_complete, all}
use flowbee.Job.Caps.{
  model_family_any, model_family_prefix, has_prefix, have, satisfied, capabilities_satisfy,
}

have_iff : (attested : List Text) (req : Text) → (have attested req ≡ true) ↔ Memᴰ req attested
unfolding have
have_iff attested req = (
  λ h.
      let (x, m, e) = any_sound (text_eq req) attested h in
      subst (λ y. Memᴰ y attested) (sym ((text_eq_iff req x).0 e)) m,
  λ m. any_complete (text_eq req) req attested m ((text_eq_iff req req).1 refl),
)

-- Some attested tag starts with the prefix.
abbrev pub HasTag : List Text → Text → Type 0
HasTag attested prefix = (tag rest : Text) × Memᴰ tag attested × (tag ≡ prefix ++ rest)

has_prefix_iff :
    (attested : List Text) (prefix : Text)
    → (has_prefix attested prefix ≡ true) ↔ HasTag attested prefix
unfolding has_prefix
has_prefix_iff attested prefix = (
  λ h.
      let (tag, m, s) = any_sound (starts_with prefix) attested h in
      let (rest, e) = (starts_with_iff prefix tag).0 s in (tag, rest, m, e),
  λ (tag, rest, m, e).
      any_complete (starts_with prefix) tag attested m ((starts_with_iff prefix tag).1 (rest, e)),
)

-- The requirement `req` is met: the wildcard by any model family, another tag by itself.
abbrev pub Meets : List Text → Text → Type 0
Meets attested req =
    ((req ≡ model_family_any) × HasTag attested model_family_prefix)
    ⊎ ((req ≢ model_family_any) × Memᴰ req attested)

satisfied_iff :
    (attested : List Text) (req : Text) → (satisfied attested req ≡ true) ↔ Meets attested req
unfolding satisfied
satisfied_iff attested req = ground (
  arith,
  text_eq_iff req model_family_any,
  has_prefix_iff attested model_family_prefix,
  have_iff attested req,
)

-- A worker may take a job exactly when every required tag is met by its attested ones: a tag by
-- itself, and `model_family:*` by a tag of any model family.
pub capabilities_satisfy_iff :
    (attested required : List Text)
    → (capabilities_satisfy attested required ≡ true)
      ↔ ((req : Text) → Memᴰ req required → Meets attested req)
unfolding capabilities_satisfy all
capabilities_satisfy_iff attested [] = (λ h req m. elim m [ ], λ f. refl)
capabilities_satisfy_iff attested (r ∷ required) =
    let rest = capabilities_satisfy_iff attested required in
    (
      λ h req m. elim m [
        | Memᴰ.head e ↦ subst (Meets attested) (sym e) ((satisfied_iff attested r).0 (ground arith))
        | Memᴰ.tail n ↦ rest.0 (ground arith) req n
      ],
      λ f. ground (
        arith,
        (satisfied_iff attested r).1 (f r (Memᴰ.head refl)),
        rest.1 (λ req m. f req (Memᴰ.tail m)),
      ),
    )
