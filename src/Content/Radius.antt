-- ===== src/Content/Radius.antt =====
-- internal/content/content.go: the declared blast-radius against the paths that a diff touches.
pub mod Tampering
use flowbee.Base.{Bool, true, false, not, if◌then◌else◌, List, [], ◌∷◌}
use flowbee.Base.Text.{Text, text_lt, is_empty}
use flowbee.Base.Lists.{any}
use flowbee.Base.Sorting.{sort_stable}
use flowbee.Content.Paths.{normalize_path, covers, dedup}

pub record BlastRadius : Type 0 where
  pub paths : List Text
  pub scope : Text

-- One round of the loop over the declared paths.
unfoldable pub declares : Text → Text → Bool
declares p d = let nd = normalize_path d in if is_empty nd then false else covers nd p

unfoldable pub declaration_covers : Text → BlastRadius → Bool
declaration_covers p decl = any (declares p) decl.paths

-- The loop over the touched paths.
unfoldable pub undeclared_from : List Text → BlastRadius → List Text
undeclared_from [] decl = []
undeclared_from (t ∷ touched) decl =
    let nt = normalize_path t in
    let rest = undeclared_from touched decl in
    if is_empty nt then rest else if not (declaration_covers nt decl) then nt ∷ rest else rest

unfoldable pub undeclared_paths : List Text → BlastRadius → List Text
undeclared_paths touched decl = dedup (sort_stable text_lt (undeclared_from touched decl))
