-- ===== src/Content/Radius/Tampering.antt =====
-- What the blast-radius check of internal/content/content.go finds.
use flowbee.Base.{
  ◌≡◌, ◌≢◌, ◌⊎◌, ◌↔◌, ◌∙◌, refl, ap, inl, inr, subst, true, false, List, [], ◌∷◌, ◌++◌, arith,
  Bool-cases,
}
use mathlib.Core.List.{Memᴰ}
use flowbee.Base.Text.{Text, text_eq, text_eq_iff, text_lt, is_empty, is_empty_iff}
use flowbee.Base.Strings.{starts_with_iff, as_directory}
use flowbee.Base.Lists.{any_sound, any_complete}
use flowbee.Base.Sorting.{sort_stable, mem-sort_stable, sort_stable-mem}
use flowbee.Content.Paths.{normalize_path, covers, dedup, dedup_after}
use flowbee.Content.Radius.{
  BlastRadius, declares, declaration_covers, undeclared_from, undeclared_paths,
}

-- The touched path `p` is, or lies beneath, a path of the declaration.
abbrev pub IsDeclared : Text → BlastRadius → Type 0
IsDeclared p decl =
    (d : Text) × Memᴰ d decl.paths
    × (normalize_path d ≢ [])
    × ((p ≡ normalize_path d) ⊎ ((rest : Text) × (p ≡ as_directory (normalize_path d) ++ rest)))

declares_iff :
    (p d : Text)
    → (declares p d ≡ true) ↔ (
        (normalize_path d ≢ [])
        × ((p ≡ normalize_path d)
            ⊎ ((rest : Text) × (p ≡ as_directory (normalize_path d) ++ rest))))
unfolding declares covers
declares_iff p d =
    let nd = normalize_path d in
    ground (arith, is_empty_iff nd, text_eq_iff p nd, starts_with_iff (as_directory nd) p)

declaration_covers_iff :
    (p : Text) (decl : BlastRadius) → (declaration_covers p decl ≡ true) ↔ IsDeclared p decl
unfolding declaration_covers
declaration_covers_iff p decl = (
  λ h.
      let (d, m, hit) = any_sound (declares p) decl.paths h in
      let (nonempty, place) = (declares_iff p d).0 hit in (d, m, nonempty, place),
  λ (d, m, nonempty, place).
      any_complete (declares p) d decl.paths m ((declares_iff p d).1 (nonempty, place)),
)

dedup_after-mem :
    (last x : Text) (xs : List Text) → Memᴰ x xs → (x ≡ last) ⊎ Memᴰ x (dedup_after last xs)
unfolding dedup_after
dedup_after-mem last x [] m = elim m [ ]
dedup_after-mem last x (s ∷ xs) m = elim (Bool-cases (text_eq s last)) [
  | inl e ↦ rw e (elim m [
    | Memᴰ.head same ↦ inl (same ∙ (text_eq_iff s last).0 e)
    | Memᴰ.tail n ↦ dedup_after-mem last x xs n
  ])
  | inr e ↦ rw e (elim m [
    | Memᴰ.head same ↦ inr (Memᴰ.head same)
    | Memᴰ.tail n ↦ elim (dedup_after-mem s x xs n) [
      | inl same ↦ inr (Memᴰ.head same)
      | inr k ↦ inr (Memᴰ.tail k)
    ]
  ])
]

uncons : (x y : Text) (ys : List Text) → Memᴰ x (y ∷ ys) → (x ≡ y) ⊎ Memᴰ x ys
uncons x y ys (Memᴰ.head e) = inl e
uncons x y ys (Memᴰ.tail m) = inr m

mem-dedup_after : (last x : Text) (xs : List Text) → Memᴰ x (dedup_after last xs) → Memᴰ x xs
unfolding dedup_after
mem-dedup_after last x [] m = elim m [ ]
mem-dedup_after last x (s ∷ xs) m = elim (Bool-cases (text_eq s last)) [
  | inl e ↦ Memᴰ.tail (mem-dedup_after last x xs (rw e at m))
  | inr e ↦ elim (uncons x s (dedup_after s xs) (rw e at m)) [
    | inl same ↦ Memᴰ.head same
    | inr n ↦ Memᴰ.tail (mem-dedup_after s x xs n)
  ]
]

dedup-mem : (x : Text) (xs : List Text) → Memᴰ x xs ↔ Memᴰ x (dedup xs)
unfolding dedup
dedup-mem x [] = (λ m. m, λ m. m)
dedup-mem x (s ∷ xs) = (there, back)
  where
    there : Memᴰ x (s ∷ xs) → Memᴰ x (s ∷ dedup_after s xs)
    there (Memᴰ.head same) = Memᴰ.head same
    there (Memᴰ.tail n) = elim (dedup_after-mem s x xs n) [
      | inl same ↦ Memᴰ.head same
      | inr k ↦ Memᴰ.tail k
    ]

    back : Memᴰ x (s ∷ dedup_after s xs) → Memᴰ x (s ∷ xs)
    back (Memᴰ.head same) = Memᴰ.head same
    back (Memᴰ.tail n) = Memᴰ.tail (mem-dedup_after s x xs n)

-- A touched path, normalized, that the declaration does not reach.
abbrev pub IsUndeclared : Text → List Text → BlastRadius → Type 0
IsUndeclared p touched decl =
    (t : Text) × Memᴰ t touched
    × (p ≡ normalize_path t)
    × (normalize_path t ≢ [])
    × (declaration_covers (normalize_path t) decl ≡ false)

nonempty : (s : Text) → s ≢ [] → is_empty s ≡ false
nonempty s n = ground (arith, is_empty_iff s)

undeclared_from_sound :
    (p : Text) (touched : List Text) (decl : BlastRadius)
    → Memᴰ p (undeclared_from touched decl)
    → IsUndeclared p touched decl
unfolding undeclared_from
undeclared_from_sound p [] decl m = elim m [ ]
undeclared_from_sound p (t ∷ touched) decl m =
    let nt = normalize_path t in
    let later : IsUndeclared p touched decl → IsUndeclared p (t ∷ touched) decl =
      (λ (u, n, same, e, c). (u, Memᴰ.tail n, same, e, c)) in
    elim (Bool-cases (is_empty nt)) [
      | inl e ↦ later (undeclared_from_sound p touched decl (rw e at m))
      | inr e ↦ elim (Bool-cases (declaration_covers nt decl)) [
        | inl c ↦ later (undeclared_from_sound p touched decl (rw (e, c) at m))
        | inr c ↦ elim (uncons p nt (undeclared_from touched decl) (rw (e, c) at m)) [
          | inl same ↦
              (t, Memᴰ.head refl, same, (λ z. absurd (ground (arith, (is_empty_iff nt).1 z))), c)
          | inr n ↦ later (undeclared_from_sound p touched decl n)
        ]
      ]
    ]

undeclared_from-complete :
    (p t : Text) (touched : List Text) (decl : BlastRadius)
    → Memᴰ t touched
    → p ≡ normalize_path t
    → normalize_path t ≢ []
    → declaration_covers (normalize_path t) decl ≡ false
    → Memᴰ p (undeclared_from touched decl)
unfolding undeclared_from
undeclared_from-complete p t [] decl m e n c = elim m [ ]
undeclared_from-complete p t (u ∷ touched) decl (Memᴰ.head same) e n c =
    rw
      (
        subst (λ v. is_empty (normalize_path v) ≡ false) same (nonempty (normalize_path t) n),
        subst (λ v. declaration_covers (normalize_path v) decl ≡ false) same c,
      )
      (Memᴰ.head (e ∙ ap normalize_path same))
undeclared_from-complete p t (u ∷ touched) decl (Memᴰ.tail m) e n c =
    let rest = undeclared_from-complete p t touched decl m e n c in
    elim (Bool-cases (is_empty (normalize_path u))) [
      | inl x ↦ rw x rest
      | inr x ↦ elim (Bool-cases (declaration_covers (normalize_path u) decl)) [
        | inl y ↦ rw (x, y) rest
        | inr y ↦ rw (x, y) (Memᴰ.tail rest)
      ]
    ]

-- The tamper signal is exact. The undeclared paths are, normalized, exactly the touched paths that
-- are neither a declared path nor beneath one.
pub undeclared_paths-exact :
    (p : Text) (touched : List Text) (decl : BlastRadius)
    → Memᴰ p (undeclared_paths touched decl) ↔ (
        (t : Text) × Memᴰ t touched
        × (p ≡ normalize_path t)
        × (normalize_path t ≢ [])
        × ¬ IsDeclared (normalize_path t) decl)
unfolding undeclared_paths
undeclared_paths-exact p touched decl =
    let found = undeclared_from touched decl in
    let sorted = dedup-mem p (sort_stable text_lt found) in
    (
      λ m.
          let (t, n, same, nonempty, c) =
            undeclared_from_sound p touched decl (sort_stable-mem text_lt p found (sorted.1 m)) in
          (
            t,
            n,
            same,
            nonempty,
            λ d. absurd (ground (arith, (declaration_covers_iff (normalize_path t) decl).1 d)),
          ),
      λ (t, n, same, nonempty, c). sorted.0 (
          mem-sort_stable text_lt p found (
            undeclared_from-complete p t touched decl n same nonempty
              (uncovered (normalize_path t) c))),
    )
  where
    uncovered : (q : Text) → ¬ IsDeclared q decl → declaration_covers q decl ≡ false
    uncovered q c = elim (Bool-cases (declaration_covers q decl)) [
      | inl y ↦ absurd (c ((declaration_covers_iff q decl).0 y))
      | inr n ↦ n
    ]
