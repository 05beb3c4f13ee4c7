-- ===== src/Content.antt =====
-- internal/content/content.go: the outcome of the content-integrity gate, and the checks behind it.
pub mod Paths
pub mod Radius
pub mod Denylist
use flowbee.Base.{Bool, not, ◌&&◌, ◌||◌, List}
use flowbee.Base.Text.{Text}

pub record Result : Type 0 where
  pub denylist_clear : Bool
  pub blast_radius_consistent : Bool
  pub static_checks_pass : Bool
  pub denylist_hits : List Text
  pub undeclared_paths : List Text
  pub static_failures : List Text

unfoldable pub eligible : Result → Bool
eligible r = r.denylist_clear && r.blast_radius_consistent && r.static_checks_pass

unfoldable pub tampered : Result → Bool
tampered r = not r.denylist_clear || not r.blast_radius_consistent
