-- ===== src/Base/Decimal.antt =====
-- Go's `%d` for a non-negative integer, and `hex.EncodeToString`, with the facts that make an
-- encoding of several fields unambiguous.
use flowbee.Base.Tests.{ltb, if◌then◌else◌, Bool-cases}
use flowbee.Base.Text.{Text}
use flowbee.Base.Lists.{length}
use Prim.Native.Nat.{ℕ, zero, suc, ◌+◌, ◌-◌, ◌*◌, ◌/◌, ◌%◌, ◌≤◌, ◌<◌}
use mathlib.Core.Path.{◌≡◌, refl, sym, ◌∙◌, ap, ap₂}
use mathlib.Core.Logic.{◌⊎◌, inl, inr}
use mathlib.Core.List.{[], ◌∷◌, ◌++◌, append_assoc}
use native.Mathlib.Omega.{arith}

-- One digit a round; `n + 1` rounds are enough, since `n / 10 < n` while `n` has two digits.
digits : ℕ → ℕ → Text
digits zero n = []
digits (suc f) n =
    let front = digits f (n / 10) in if ltb n 10 then (48 + n) ∷ [] else front ++ (48 + n % 10) ∷ []

unfoldable pub decimal : ℕ → Text
unfolding digits
decimal n = digits (suc n) n

-- The number that a text of digits stands for, read from the left.
value_from : ℕ → Text → ℕ
value_from acc [] = acc
value_from acc (d ∷ ds) = value_from (acc * 10 + (d - 48)) ds

value_from-snoc :
    (acc : ℕ) (ds : Text) (d : ℕ)
    → value_from acc (ds ++ d ∷ []) ≡ value_from acc ds * 10 + (d - 48)
unfolding value_from
value_from-snoc acc [] d = refl
value_from-snoc acc (e ∷ ds) d = value_from-snoc (acc * 10 + (e - 48)) ds d

value-digits : (f n : ℕ) → n < f → value_from 0 (digits f n) ≡ n
unfolding digits value_from
value-digits zero n h = elim h [ ]
value-digits (suc f) n h = elim (Bool-cases (ltb n 10)) [
  | inl small ↦ rw small (omega arith)
  | inr large ↦ rw large (
      omega (
        arith,
        value_from-snoc 0 (digits f (n / 10)) (48 + n % 10),
        value-digits f (n / 10) (ground arith),
      ))
]

pub decimal_injective : (m n : ℕ) → decimal m ≡ decimal n → m ≡ n
unfolding decimal
decimal_injective m n e = omega (
  arith,
  value-digits (suc m) m (omega arith),
  value-digits (suc n) n (omega arith),
  ap (value_from 0) e,
)

-- Every byte is a decimal digit.
abbrev pub IsDigits : Text → Type 0
IsDigits [] = Unit {0}
IsDigits (d ∷ ds) = (48 ≤ d) × (d < 58) × IsDigits ds

IsDigits-append : (s t : Text) → IsDigits s → IsDigits t → IsDigits (s ++ t)
IsDigits-append [] t h k = k
IsDigits-append (d ∷ s) t h k = (h.0, h.1, IsDigits-append s t h.2 k)

digits-IsDigits : (f n : ℕ) → IsDigits (digits f n)
unfolding digits
digits-IsDigits zero n = tt
digits-IsDigits (suc f) n = elim (Bool-cases (ltb n 10)) [
  | inl small ↦ rw small (omega arith, ground arith, tt)
  | inr large ↦ rw large (
      IsDigits-append (digits f (n / 10)) ((48 + n % 10) ∷ []) (digits-IsDigits f (n / 10))
        (omega arith, omega arith, tt))
]

pub decimal-IsDigits : (n : ℕ) → IsDigits (decimal n)
unfolding decimal
decimal-IsDigits n = digits-IsDigits (suc n) n

-- The digits before a byte that is no digit are determined by the whole.
pub digits_split :
    (c : ℕ) (s s' t t' : Text)
    → (c < 48) ⊎ (57 < c)
    → IsDigits s
    → IsDigits s'
    → s ++ (c ∷ t) ≡ s' ++ (c ∷ t')
    → (s ≡ s') × (t ≡ t')
digits_split c [] [] t t' k h h' e = (refl, cc)
digits_split c [] (d ∷ s') t t' k h h' e = absurd (ground arith)
digits_split c (d ∷ s) [] t t' k h h' e = absurd (ground arith)
digits_split c (d ∷ s) (d' ∷ s') t t' k h h' e =
    let rest = digits_split c s s' t t' k h.2 h'.2 (cc) in (ap₂ ◌∷◌ (cc) rest.0, rest.1)

-- Two texts of one length split at the same place.
pub append_split :
    (s s' t t' : Text) → length s ≡ length s' → s ++ t ≡ s' ++ t' → (s ≡ s') × (t ≡ t')
append_split [] [] t t' h e = (refl, e)
append_split [] (d ∷ s') t t' h e = absurd (omega arith)
append_split (d ∷ s) [] t t' h e = absurd (omega arith)
append_split (d ∷ s) (d' ∷ s') t t' h e =
    let rest = append_split s s' t t' (omega arith) (cc) in (ap₂ ◌∷◌ (cc) rest.0, rest.1)

-- `fmt.Fprintf(h, "%d:%s\n", len(f), f)`
unfoldable pub field_text : Text → Text
field_text f = decimal (length f) ++ (58 ∷ (f ++ (10 ∷ [])))

field_append : (f t : Text) → field_text f ++ t ≡ decimal (length f) ++ (58 ∷ (f ++ (10 ∷ t)))
unfolding field_text
field_append f t = simp append_assoc

-- A length-prefixed field can be read back from whatever follows it.
pub field_split : (f f' t t' : Text) → field_text f ++ t ≡ field_text f' ++ t' → (f ≡ f') × (t ≡ t')
unfolding field_text
field_split f f' t t' e =
    let (sizes, rest) =
      digits_split 58 (decimal (length f)) (decimal (length f')) (f ++ (10 ∷ t)) (f' ++ (10 ∷ t'))
        (inr (omega arith)) (decimal-IsDigits (length f)) (decimal-IsDigits (length f'))
        (sym (field_append f t) ∙ e ∙ field_append f' t') in
    let (same, rest') =
      append_split f f' (10 ∷ t) (10 ∷ t') (decimal_injective (length f) (length f') sizes) rest in
    (same, cc)

-- `fmt.Fprintf(h, "version:%d\n", n)` without its label: a number that ends at the newline.
pub line_split :
    (m n : ℕ) (t t' : Text) → decimal m ++ (10 ∷ t) ≡ decimal n ++ (10 ∷ t') → (m ≡ n) × (t ≡ t')
line_split m n t t' e =
    let (same, rest) =
      digits_split 10 (decimal m) (decimal n) t t' (inl (omega arith)) (decimal-IsDigits m)
        (decimal-IsDigits n) e in
    (decimal_injective m n same, rest)

unfoldable pub hex_digit : ℕ → ℕ
hex_digit n = if ltb n 10 then 48 + n else 87 + n

-- `hex.EncodeToString`
unfoldable pub hex : Text → Text
hex [] = []
hex (b ∷ s) = hex_digit (b / 16) ∷ hex_digit (b % 16) ∷ hex s

hex_digit_injective : (m n : ℕ) → hex_digit m ≡ hex_digit n → m ≡ n
unfolding hex_digit
hex_digit_injective m n e = ground arith

pub hex_injective : (s t : Text) → hex s ≡ hex t → s ≡ t
unfolding hex
hex_injective [] [] e = refl
hex_injective [] (b ∷ t) e = ground arith
hex_injective (a ∷ s) [] e = ground arith
hex_injective (a ∷ s) (b ∷ t) e =
    let high : a / 16 ≡ b / 16 = hex_digit_injective (a / 16) (b / 16) (cc) in
    let low : a % 16 ≡ b % 16 = hex_digit_injective (a % 16) (b % 16) (cc) in
    ap₂ ◌∷◌ (omega arith) (hex_injective s t (cc))
