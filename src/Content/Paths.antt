-- ===== src/Content/Paths.antt =====
-- internal/content/content.go: the path helpers. Text is ASCII.
use flowbee.Base.{Bool, true, ◌||◌, if◌then◌else◌, List, [], ◌∷◌, ◌==◌}
use flowbee.Base.Text.{Text, bytes, text_eq, is_empty}
use flowbee.Base.Strings.{
  starts_with, trim_space, trim_prefix, forward_slashes, path_clean, as_directory,
}
use flowbee.Base.Lists.{any}

-- The path after the separators are made uniform.
unfoldable pub relative_path : Text → Text
relative_path p = trim_prefix (bytes "/") (trim_prefix (bytes "./") (forward_slashes p))

unfoldable pub canonical_path : Text → Text
canonical_path p =
    if is_empty p then [] else if text_eq (path_clean p) (bytes ".") then [] else path_clean p

unfoldable pub normalize_path : Text → Text
normalize_path p =
    let trimmed = trim_space p in
    if text_eq trimmed (bytes "/dev/null") then trimmed else canonical_path (relative_path trimmed)

unfoldable pub has_slash : Text → Bool
has_slash p = any (λ c. c == 47) p

-- What follows the last slash.
unfoldable pub base_name : Text → Text
base_name [] = []
base_name (c ∷ p) = let rest = base_name p in if has_slash (c ∷ p) then rest else c ∷ p

unfoldable pub has_any_base : Text → List Text → Bool
has_any_base p names = any (λ n. text_eq (base_name p) n || text_eq p n) names

-- The path itself, or a place beneath it as a directory: the test that the declarations and the
-- configured prefixes share.
unfoldable pub covers : Text → Text → Bool
covers dir p = if text_eq p dir then true else starts_with (as_directory dir) p

-- `dedup` compares with the last text that was kept.
unfoldable pub dedup_after : Text → List Text → List Text
dedup_after last [] = []
dedup_after last (s ∷ rest) =
    if text_eq s last then dedup_after last rest else s ∷ dedup_after s rest

unfoldable pub dedup : List Text → List Text
dedup [] = []
dedup (s ∷ rest) = s ∷ dedup_after s rest
