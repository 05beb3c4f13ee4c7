-- ===== src/Examples/Diff.antt =====
-- The theorems on internal/content, applied to the paths of a sample diff.
use flowbee.Base.{◌≡◌, ◌≢◌, ◌⊎◌, ◌↔◌, refl, true, false, [], ◌∷◌}
use mathlib.Core.List.{Memᴰ}
use flowbee.Base.Text.{Text, bytes, text_eq, is_empty}
use flowbee.Base.Lists.{any}
use flowbee.Base.Strings.{
  starts_with, lower, trim_left, trim_right, trim_prefix, rest_after, forward_slashes, split_slash,
  go_up, clean_pieces, join_pieces, path_clean,
}
use flowbee.Content.Paths.{normalize_path, relative_path, canonical_path}
use flowbee.Content.Radius.{BlastRadius, undeclared_paths}
use flowbee.Content.Radius.Tampering.{undeclared_paths-exact, IsDeclared}
use flowbee.Content.Denylist.{
  denylist_hits_with, is_denylisted, is_ci_workflow, matches_any_prefix, matches_class,
}
use flowbee.Content.Denylist.Protection.{denylist_hits_with_clear}

-- A workflow behind a detour and a change of case.
abbrev workflow : Text
workflow = bytes "./pkg/../.GitHub/workflows/ci.yml"

workflow_path : normalize_path workflow ≡ bytes ".GitHub/workflows/ci.yml"
unfolding normalize_path relative_path canonical_path bytes text_eq is_empty starts_with trim_left
    trim_right trim_prefix rest_after forward_slashes split_slash go_up clean_pieces join_pieces
    path_clean
workflow_path = refl

workflow_hit : is_denylisted workflow ≡ true
unfolding is_denylisted matches_class is_ci_workflow any bytes is_empty lower starts_with
workflow_hit = rw workflow_path refl

abbrev docs : BlastRadius
docs = record { paths = bytes "docs" ∷ []; scope = bytes "*" }

undeclared_paths-exact_example :
    Memᴰ (bytes ".GitHub/workflows/ci.yml") (undeclared_paths (workflow ∷ []) docs) ↔ (
      (t : Text) × Memᴰ t (workflow ∷ [])
      × (bytes ".GitHub/workflows/ci.yml" ≡ normalize_path t)
      × (normalize_path t ≢ [])
      × ¬ IsDeclared (normalize_path t) docs)
undeclared_paths-exact_example =
    undeclared_paths-exact (bytes ".GitHub/workflows/ci.yml") (workflow ∷ []) docs

denylist_hits_with_clear_example :
    (denylist_hits_with (workflow ∷ []) (bytes "Secret/" ∷ []) ≡ []) ↔ (
      (t : Text)
      → Memᴰ t (workflow ∷ [])
      → (is_denylisted t ≡ false)
        × ((normalize_path t ≡ [])
            ⊎ (matches_any_prefix (lower (normalize_path t)) (bytes "Secret/" ∷ []) ≡ false)))
denylist_hits_with_clear_example = denylist_hits_with_clear (workflow ∷ []) (bytes "Secret/" ∷ [])
