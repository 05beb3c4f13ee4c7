-- ===== src/Base/Sorting.antt =====
-- `sort.SliceStable` with a given `less`: insertion from the right, where an element goes before
-- those that are not less than it.
use mathlib.Core.Path.{◌≡◌, sym, subst}
use mathlib.Core.Logic.{◌⊎◌, inl, inr}
use mathlib.Core.Bool.{Bool, true, false}
use mathlib.Core.List.{List, [], ◌∷◌, ◌++◌, Memᴰ, Perm}
use mathlib.Core.List.Perm
use flowbee.Base.Tests.{if◌then◌else◌, Bool-cases}

module _ {A : Type 0} (less : A → A → Bool) where
  unfoldable pub insert_by : A → List A → List A
  insert_by x [] = x ∷ []
  insert_by x (y ∷ ys) =
      let further = insert_by x ys in if less y x then y ∷ further else x ∷ y ∷ ys

  unfoldable pub sort_stable : List A → List A
  unfolding insert_by
  sort_stable [] = []
  sort_stable (x ∷ xs) = insert_by x (sort_stable xs)

  -- No element is less than one that stands before it.
  abbrev pub NoneLess : A → List A → Type 0
  NoneLess x [] = Unit {0}
  NoneLess x (y ∷ ys) = (less y x ≡ false) × NoneLess x ys

  abbrev pub IsSorted : List A → Type 0
  IsSorted [] = Unit {0}
  IsSorted (x ∷ xs) = NoneLess x xs × IsSorted xs

  insert_by-perm : (x : A) (xs : List A) → Perm (insert_by x xs) (x ∷ xs)
  unfolding insert_by
  insert_by-perm x [] = Perm.refl (x ∷ [])
  insert_by-perm x (y ∷ ys) = elim (Bool-cases (less y x)) [
    | inl e ↦ rw e (Perm.trans (Perm.cons y (insert_by-perm x ys)) (Perm.swap x y ys))
    | inr e ↦ rw e (Perm.refl _)
  ]

  pub sort_stable-perm : (xs : List A) → Perm (sort_stable xs) xs
  unfolding sort_stable
  sort_stable-perm [] = Perm.refl []
  sort_stable-perm (x ∷ xs) =
      Perm.trans (insert_by-perm x (sort_stable xs)) (Perm.cons x (sort_stable-perm xs))

  -- What a comparison must be: asymmetric, and "not less" transitive.
  module _ (asym : (a b : A) → less a b ≡ true → less b a ≡ false)
      (trans : (a b c : A) → less b a ≡ false → less c b ≡ false → less c a ≡ false) where
    NoneLess-trans : (a b : A) (ys : List A) → less b a ≡ false → NoneLess b ys → NoneLess a ys
    NoneLess-trans a b [] h n = tt
    NoneLess-trans a b (y ∷ ys) h n = (trans a b y h n.0, NoneLess-trans a b ys h n.1)

    NoneLess-insert_by :
        (a x : A) (ys : List A) → less x a ≡ false → NoneLess a ys → NoneLess a (insert_by x ys)
    unfolding insert_by
    NoneLess-insert_by a x [] h n = (h, tt)
    NoneLess-insert_by a x (y ∷ ys) h n = elim (Bool-cases (less y x)) [
      | inl e ↦ rw e (n.0, NoneLess-insert_by a x ys h n.1)
      | inr e ↦ rw e (h, n)
    ]

    insert_by-IsSorted : (x : A) (ys : List A) → IsSorted ys → IsSorted (insert_by x ys)
    unfolding insert_by
    insert_by-IsSorted x [] s = (tt, tt)
    insert_by-IsSorted x (y ∷ ys) s = elim (Bool-cases (less y x)) [
      | inl e ↦ rw e (NoneLess-insert_by y x ys (asym y x e) s.0, insert_by-IsSorted x ys s.1)
      | inr e ↦ rw e ((e, NoneLess-trans x y ys e s.0), s)
    ]

    pub sort_stable-IsSorted : (xs : List A) → IsSorted (sort_stable xs)
    unfolding sort_stable
    sort_stable-IsSorted [] = tt
    sort_stable-IsSorted (x ∷ xs) = insert_by-IsSorted x (sort_stable xs) (sort_stable-IsSorted xs)

  pub IsSorted-suffix : (xs ys : List A) → IsSorted (xs ++ ys) → IsSorted ys
  IsSorted-suffix [] ys s = s
  IsSorted-suffix (x ∷ xs) ys s = IsSorted-suffix xs ys s.1

  pub NoneLess-mem : (x y : A) (ys : List A) → NoneLess x ys → Memᴰ y ys → less y x ≡ false
  NoneLess-mem x y [] n m = elim m [ ]
  NoneLess-mem x y (z ∷ zs) n (Memᴰ.head e) = subst (λ w. less w x ≡ false) (sym e) n.0
  NoneLess-mem x y (z ∷ zs) n (Memᴰ.tail m) = NoneLess-mem x y zs n.1 m

  mem-insert_by : (x y : A) (xs : List A) → Memᴰ y (x ∷ xs) → Memᴰ y (insert_by x xs)
  unfolding insert_by
  mem-insert_by x y [] m = m
  mem-insert_by x y (z ∷ zs) m = elim (Bool-cases (less z x)) [
    | inr e ↦ rw e m
    | inl e ↦ rw e (swapped x y z zs (mem-insert_by x y zs) m)
  ]
    where
      swapped :
          (x y z : A) (zs : List A)
          → (Memᴰ y (x ∷ zs) → Memᴰ y (insert_by x zs))
          → Memᴰ y (x ∷ z ∷ zs)
          → Memᴰ y (z ∷ insert_by x zs)
      swapped x y z zs into (Memᴰ.head p) = Memᴰ.tail (into (Memᴰ.head p))
      swapped x y z zs into (Memᴰ.tail (Memᴰ.head p)) = Memᴰ.head p
      swapped x y z zs into (Memᴰ.tail (Memᴰ.tail m)) = Memᴰ.tail (into (Memᴰ.tail m))

  insert_by-mem : (x y : A) (xs : List A) → Memᴰ y (insert_by x xs) → (y ≡ x) ⊎ Memᴰ y xs
  unfolding insert_by
  insert_by-mem x y [] (Memᴰ.head p) = inl p
  insert_by-mem x y [] (Memᴰ.tail m) = inr m
  insert_by-mem x y (z ∷ zs) m = elim (Bool-cases (less z x)) [
    | inr e ↦ kept x y z zs (rw e at m)
    | inl e ↦ passed x y z zs (insert_by-mem x y zs) (rw e at m)
  ]
    where
      kept : (x y z : A) (zs : List A) → Memᴰ y (x ∷ z ∷ zs) → (y ≡ x) ⊎ Memᴰ y (z ∷ zs)
      kept x y z zs (Memᴰ.head p) = inl p
      kept x y z zs (Memᴰ.tail m) = inr m

      passed :
          (x y z : A) (zs : List A)
          → (Memᴰ y (insert_by x zs) → (y ≡ x) ⊎ Memᴰ y zs)
          → Memᴰ y (z ∷ insert_by x zs)
          → (y ≡ x) ⊎ Memᴰ y (z ∷ zs)
      passed x y z zs out (Memᴰ.head p) = inr (Memᴰ.head p)
      passed x y z zs out (Memᴰ.tail m) = elim (out m) [ inl p ↦ inl p | inr n ↦ inr (Memᴰ.tail n) ]

  pub mem-sort_stable : (y : A) (xs : List A) → Memᴰ y xs → Memᴰ y (sort_stable xs)
  unfolding sort_stable
  mem-sort_stable y [] m = m
  mem-sort_stable y (x ∷ xs) (Memᴰ.head p) = mem-insert_by x y (sort_stable xs) (Memᴰ.head p)
  mem-sort_stable y (x ∷ xs) (Memᴰ.tail m) =
      mem-insert_by x y (sort_stable xs) (Memᴰ.tail (mem-sort_stable y xs m))

  pub sort_stable-mem : (y : A) (xs : List A) → Memᴰ y (sort_stable xs) → Memᴰ y xs
  unfolding sort_stable
  sort_stable-mem y [] m = m
  sort_stable-mem y (x ∷ xs) m = elim (insert_by-mem x y (sort_stable xs) m) [
    | inl p ↦ Memᴰ.head p
    | inr n ↦ Memᴰ.tail (sort_stable-mem y xs n)
  ]
