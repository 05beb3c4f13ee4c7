-- ===== src/Base/Lists.antt =====
-- Lists measured by native numbers, and the search loops that the program writes over slices.
use Prim.Native.Nat.{ℕ, suc, ◌+◌}
use mathlib.Core.Path.{◌≡◌, refl, sym, subst}
use mathlib.Core.Bool.{Bool, true, false, ◌&&◌, ◌||◌}
use mathlib.Core.List.{List, [], ◌∷◌, ◌++◌, Memᴰ}
use native.Mathlib.Omega.{arith}
use mathlib.Core.Logic.{inl, inr}
use flowbee.Base.Tests.{if◌then◌else◌, Bool-cases}

module _ {ℓ} {A : Type ℓ} where
  abbrev pub length : List A → ℕ
  length [] = 0
  length (x ∷ xs) = suc (length xs)

  pub length-append : (xs ys : List A) → length (xs ++ ys) ≡ length xs + length ys
  length-append [] ys = omega arith
  length-append (x ∷ xs) ys = omega (arith, length-append xs ys)

  -- `for _, x := range xs { if p(x) { return true } }; return false`
  unfoldable pub any : (A → Bool) → List A → Bool
  any p [] = false
  any p (x ∷ xs) = p x || any p xs

  unfoldable pub all : (A → Bool) → List A → Bool
  all p [] = true
  all p (x ∷ xs) = p x && all p xs

  -- `for _, x := range xs { if p(x) { out = append(out, x) } }`
  unfoldable pub keep : (A → Bool) → List A → List A
  keep p [] = []
  keep p (x ∷ xs) = let rest = keep p xs in if p x then x ∷ rest else rest

  -- A search finds exactly what the list holds.
  pub any_sound :
      (p : A → Bool) (xs : List A) → any p xs ≡ true → (x : A) × Memᴰ x xs × (p x ≡ true)
  unfolding any
  any_sound p [] h = absurd (ground arith)
  any_sound p (x ∷ xs) h = elim (Bool-cases (p x)) [
    | inl hit ↦ (x, Memᴰ.head refl, hit)
    | inr miss ↦ let (y, m, hit) = any_sound p xs (rw miss at h) in (y, Memᴰ.tail m, hit)
  ]

  pub any_complete : (p : A → Bool) (x : A) (xs : List A) → Memᴰ x xs → p x ≡ true → any p xs ≡ true
  unfolding any
  any_complete p x [] m h = elim m [ ]
  any_complete p x (y ∷ xs) (Memᴰ.head e) h = ground arith
  any_complete p x (y ∷ xs) (Memᴰ.tail m) h = ground (arith, any_complete p x xs m h)

  -- A filter keeps exactly what passes its test.
  pub keep-mem :
      (p : A → Bool) (x : A) (xs : List A) → Memᴰ x (keep p xs) → Memᴰ x xs × (p x ≡ true)
  unfolding keep
  keep-mem p x [] m = elim m [ ]
  keep-mem p x (y ∷ ys) m = elim (Bool-cases (p y)) [
    | inl e ↦ kept y ys e (keep-mem p x ys) (rw e at m)
    | inr e ↦ let (n, h) = keep-mem p x ys (rw e at m) in (Memᴰ.tail n, h)
  ]
    where
      kept :
          (y : A) (ys : List A)
          → p y ≡ true
          → (Memᴰ x (keep p ys) → Memᴰ x ys × (p x ≡ true))
          → Memᴰ x (y ∷ keep p ys)
          → Memᴰ x (y ∷ ys) × (p x ≡ true)
      kept y ys e rest (Memᴰ.head q) = (Memᴰ.head q, subst (λ z. p z ≡ true) (sym q) e)
      kept y ys e rest (Memᴰ.tail m) = let (n, h) = rest m in (Memᴰ.tail n, h)

  pub mem-keep : (p : A → Bool) (x : A) (xs : List A) → Memᴰ x xs → p x ≡ true → Memᴰ x (keep p xs)
  unfolding keep
  mem-keep p x [] m h = elim m [ ]
  mem-keep p x (y ∷ ys) (Memᴰ.head e) h = rw (subst (λ z. p z ≡ true) e h) (Memᴰ.head e)
  mem-keep p x (y ∷ ys) (Memᴰ.tail m) h = elim (Bool-cases (p y)) [
    | inl e ↦ rw e (Memᴰ.tail (mem-keep p x ys m h))
    | inr e ↦ rw e (mem-keep p x ys m h)
  ]
