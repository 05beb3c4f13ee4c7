-- ===== src/Base/Strings.antt =====
-- What the program uses of Go's packages strings and path, on ASCII text.
use Prim.Native.Nat.{ℕ, ◌+◌}
use mathlib.Core.Path.{◌≡◌, refl}
use mathlib.Core.Logic.{◌↔◌}
use mathlib.Core.Bool.{Bool, true, false, ◌&&◌, ◌||◌}
use mathlib.Core.Option.{Option, none, some}
use mathlib.Core.List.{List, [], ◌∷◌, ◌++◌, map}
use native.Mathlib.Omega.{arith}
use flowbee.Base.Tests.{leb, ◌==◌, if◌then◌else◌}
use flowbee.Base.Text.{Text, bytes, text_eq, is_empty}
use flowbee.Base.Lists.{any}

-- `strings.HasPrefix`
unfoldable pub starts_with : Text → Text → Bool
starts_with [] c = true
starts_with (p ∷ prefix) [] = false
starts_with (p ∷ prefix) (x ∷ c) = p == x && starts_with prefix c

pub starts_with_iff : (p c : Text) → (starts_with p c ≡ true) ↔ ((rest : Text) × (c ≡ p ++ rest))
unfolding starts_with
starts_with_iff [] c = (λ h. (c, refl), λ h. refl)
starts_with_iff (x ∷ p) [] = (λ h. absurd (ground arith), λ (rest, e). absurd (ground arith))
starts_with_iff (x ∷ p) (y ∷ c) = (
  λ h. let (rest, e) = (starts_with_iff p c).0 (ground arith) in (rest, ground arith),
  λ (rest, e). ground (arith, (starts_with_iff p c).1 (rest, ground arith)),
)

-- Tab, line feed, vertical tab, form feed, carriage return and space.
abbrev pub is_space : ℕ → Bool
is_space c = (leb 9 c && leb c 13) || c == 32

unfoldable pub trim_left : Text → Text
trim_left [] = []
trim_left (c ∷ cs) = let rest = trim_left cs in if is_space c then rest else c ∷ cs

unfoldable pub trim_right : Text → Text
trim_right [] = []
trim_right (c ∷ cs) =
    let rest = trim_right cs in if is_empty rest && is_space c then [] else c ∷ rest

-- `strings.TrimSpace`
abbrev pub trim_space : Text → Text
trim_space s = trim_right (trim_left s)

-- What follows a prefix, if the text has it.
unfoldable pub rest_after : Text → Text → Option Text
rest_after [] c = some c
rest_after (p ∷ prefix) [] = none
rest_after (p ∷ prefix) (x ∷ c) = let rest = rest_after prefix c in if p == x then rest else none

-- `strings.TrimPrefix(c, prefix)`
unfoldable pub trim_prefix : Text → Text → Text
trim_prefix prefix c = elim (rest_after prefix c) [ none ↦ c | some rest ↦ rest ]

-- `strings.ReplaceAll(p, "\\", "/")`
unfoldable pub forward_slashes : Text → Text
forward_slashes p = map (λ c. if c == 92 then 47 else c) p

-- `strings.HasSuffix(p, "/")`
unfoldable pub ends_with_slash : Text → Bool
ends_with_slash [] = false
ends_with_slash (c ∷ []) = c == 47
ends_with_slash (c ∷ d ∷ cs) = ends_with_slash (d ∷ cs)

-- `if !strings.HasSuffix(p, "/") { p += "/" }`
unfoldable pub as_directory : Text → Text
as_directory p = if ends_with_slash p then p else p ++ bytes "/"

-- The pieces between the slashes.
unfoldable pub split_slash : Text → List Text
split_slash [] = [] ∷ []
split_slash (c ∷ cs) = if c == 47 then [] ∷ split_slash cs else onto c (split_slash cs)
  where
    onto : ℕ → List Text → List Text
    onto c [] = (c ∷ []) ∷ []
    onto c (s ∷ rest) = (c ∷ s) ∷ rest

-- `..` on the pieces kept so far, the last one first: it takes one away, unless there is none or it
-- is `..` itself.
unfoldable pub go_up : Bool → List Text → List Text
go_up rooted [] = if rooted then [] else bytes ".." ∷ []
go_up rooted (s ∷ kept) = if text_eq s (bytes "..") then bytes ".." ∷ s ∷ kept else kept

unfoldable pub clean_pieces : Bool → List Text → List Text → List Text
clean_pieces rooted kept [] = kept
clean_pieces rooted kept (s ∷ rest) =
    clean_pieces rooted
      (if is_empty s || text_eq s (bytes ".")
        then kept
        else if text_eq s (bytes "..")
        then go_up rooted kept
        else s ∷ kept)
      rest

unfoldable pub join_pieces : List Text → Text
join_pieces [] = []
join_pieces (s ∷ []) = s
join_pieces (s ∷ t ∷ kept) = join_pieces (t ∷ kept) ++ (bytes "/" ++ s)

-- `path.Clean`
unfoldable pub path_clean : Text → Text
path_clean p =
    let rooted = starts_with (bytes "/") p in
    let kept = clean_pieces rooted [] (split_slash p) in
    if rooted
    then bytes "/" ++ join_pieces kept
    else if is_empty (join_pieces kept)
    then bytes "."
    else join_pieces kept

-- `strings.ToLower`
abbrev pub lower_byte : ℕ → ℕ
lower_byte c = if leb b'A' c && leb c b'Z' then c + 32 else c

unfoldable pub lower : Text → Text
lower s = map lower_byte s

-- `strings.EqualFold`
unfoldable pub equal_fold : Text → Text → Bool
equal_fold s t = text_eq (lower s) (lower t)

-- `strings.Contains(s, part)`
unfoldable pub contains : Text → Text → Bool
contains part [] = is_empty part
contains part (c ∷ s) = starts_with part (c ∷ s) || contains part s

-- `strings.HasSuffix(s, suffix)`
unfoldable pub ends_with : Text → Text → Bool
ends_with suffix [] = is_empty suffix
ends_with suffix (c ∷ s) = text_eq suffix (c ∷ s) || ends_with suffix s

-- A `switch` on a string with one case for all the names.
unfoldable pub is_one_of : List Text → Text → Bool
is_one_of names s = any (text_eq s) names
