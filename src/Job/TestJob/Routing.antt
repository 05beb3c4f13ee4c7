-- ===== src/Job/TestJob/Routing.antt =====
-- internal/job/testjob.go against the capability match: which workers a test job may go to.
use flowbee.Base.{
  ◌≡◌, refl, ◌∙◌, ap, inl, inr, Bool, true, ◌&&◌, ◌||◌, List, [], ◌∷◌, ◌++◌, none, some, arith,
  Bool-cases, Option-cases,
}
use flowbee.Base.Lists.{any, all}
use flowbee.Base.Text.{Text, is_empty, text_eq, text_eq_iff, text_lt}
use flowbee.Base.Sorting.{sort_stable, insert_by}
use flowbee.Job.Caps.{capabilities_satisfy, satisfied}
use flowbee.Job.TestJob.{
  TestMatrix, normalize_tag, add_tag, role_tester, arch_prefix, os_prefix, tool_prefix,
  add_declared, add_tools, tool_of, add_derived, diff_derived_tools, add_prefixed,
  derive_test_constraints,
}

module _ (p : Text → Bool) where
  all-insert_by : (x : Text) (ys : List Text) → all p (insert_by text_lt x ys) ≡ (p x && all p ys)
  unfolding all insert_by
  all-insert_by x [] = refl
  all-insert_by x (y ∷ ys) = ground (arith, all-insert_by x ys)

  all-sort_stable : (xs : List Text) → all p (sort_stable text_lt xs) ≡ all p xs
  unfolding all sort_stable
  all-sort_stable [] = refl
  all-sort_stable (x ∷ xs) =
      all-insert_by x (sort_stable text_lt xs) ∙ ap (λ b. p x && b) (all-sort_stable xs)

  all-any : (t : Text) (xs : List Text) → any (text_eq t) xs ≡ true → all p xs ≡ true → p t ≡ true
  unfolding all any
  all-any t [] h k = absurd (ground (arith, h))
  all-any t (x ∷ xs) h k = ground (arith, h, k, text_eq_iff t x, all-any t xs)

  all-add_tag : (t : Text) (xs : List Text) → all p (add_tag t xs) ≡ (p t && all p xs)
  unfolding all add_tag
  all-add_tag t xs = elim (Bool-cases (any (text_eq t) xs)) [
    | inl old ↦ ground (arith, old, all-any t xs old)
    | inr new ↦ rw new refl
  ]

  all-add_declared :
      (prefix value : Text) (xs : List Text)
      → all p (add_declared prefix value xs)
        ≡ ((is_empty (normalize_tag value) || p (prefix ++ normalize_tag value)) && all p xs)
  unfolding add_declared
  all-add_declared prefix value xs = elim (Bool-cases (is_empty (normalize_tag value))) [
    | inl blank ↦ rw blank refl
    | inr given ↦ rw given (all-add_tag (prefix ++ normalize_tag value) xs)
  ]

  all-add_tools :
      (ts xs : List Text)
      → all p (add_tools ts xs) ≡ (
          all (λ t. is_empty (normalize_tag t) || p (tool_prefix ++ normalize_tag t)) ts
          && all p xs)
  unfolding add_tools all
  all-add_tools [] xs = refl
  all-add_tools (t ∷ ts) xs =
      ground (arith, all-add_declared tool_prefix t (add_tools ts xs), all-add_tools ts xs)

  all-add_prefixed :
      (ts xs : List Text)
      → all p (add_prefixed ts xs) ≡ (all (λ t. p (tool_prefix ++ t)) ts && all p xs)
  unfolding add_prefixed all
  all-add_prefixed [] xs = refl
  all-add_prefixed (t ∷ ts) xs =
      ground (arith, all-add_tag (tool_prefix ++ t) (add_prefixed ts xs), all-add_prefixed ts xs)

  all-add_derived :
      (touched : List Text)
      → all p (add_derived touched [])
        ≡ all (λ t. elim (tool_of t) [ none ↦ true | some tool ↦ p tool ]) touched
  unfolding add_derived all
  all-add_derived [] = refl
  all-add_derived (t ∷ ts) = elim (Option-cases (tool_of t)) [
    | inl e ↦ rw (add_derived, e) (all-add_derived ts)
    | inr (tool, e) ↦
        rw (add_derived, e)
          (all-add_tag tool (add_derived ts []) ∙ ap (λ b. p tool && b) (all-add_derived ts))
  ]

-- The worker attests a declared value, if there is one.
abbrev pub attests : List Text → Text → Text → Bool
attests attested prefix value =
    is_empty (normalize_tag value) || satisfied attested (prefix ++ normalize_tag value)

-- The worker attests the tool that a touched path calls for, if it calls for one.
abbrev pub tests_path : List Text → Text → Bool
tests_path attested path = elim (tool_of path) [
  | none ↦ true
  | some tool ↦ satisfied attested (tool_prefix ++ tool)
]

-- A test job goes to the right worker. The constraints that are derived for a test job are satisfied
-- exactly by a worker that attests to be a tester, the declared architecture, the declared system,
-- every declared tool and every tool that a touched path calls for; blank values ask for nothing, and
-- order and repetition do not matter.
pub capabilities_satisfy-derive_test_constraints :
    (attested : List Text) (m : TestMatrix) (touched : List Text)
    → capabilities_satisfy attested (derive_test_constraints m touched) ≡ (
        all (tests_path attested) touched
        && (all (attests attested tool_prefix) m.tools
            && (attests attested os_prefix m.os
                && (attests attested arch_prefix m.arch && satisfied attested role_tester))))
unfolding capabilities_satisfy derive_test_constraints diff_derived_tools all
capabilities_satisfy-derive_test_constraints attested m touched =
    let p : Text → Bool = satisfied attested in
    let q : Text → Bool = λ t. satisfied attested (tool_prefix ++ t) in
    let role = add_tag role_tester [] in
    let arch = add_declared arch_prefix m.arch role in
    let os = add_declared os_prefix m.os arch in
    let tools = add_tools m.tools os in
    let found = add_derived touched [] in
    let total = add_prefixed (sort_stable text_lt found) tools in
    let last : all p role ≡ p role_tester = ground (arith, all-add_tag p role_tester []) in
    all-sort_stable p total
    ∙ all-add_prefixed p (sort_stable text_lt found) tools
    ∙ ap (λ b. b && all p tools) (all-sort_stable q found ∙ all-add_derived q touched)
    ∙ ap (λ b. all (tests_path attested) touched && b)
        (all-add_tools p m.tools os
          ∙ ap (λ b. all (attests attested tool_prefix) m.tools && b)
              (all-add_declared p os_prefix m.os arch
                ∙ ap (λ b. attests attested os_prefix m.os && b)
                    (all-add_declared p arch_prefix m.arch role
                      ∙ ap (λ b. attests attested arch_prefix m.arch && b) last)))
