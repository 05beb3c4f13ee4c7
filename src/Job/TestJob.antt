-- ===== src/Job/TestJob.antt =====
-- internal/job/testjob.go: the capability tags that a test job requires. A set that the source
-- keeps as a map and sorts in the end is a list without repetition. Text is ASCII.
pub mod Routing
use flowbee.Base.{
  Bool, true, false, ◌||◌, ◌==◌, if◌then◌else◌, List, [], ◌∷◌, ◌++◌, Option, none, some,
}
use flowbee.Base.Lists.{any}
use flowbee.Base.Text.{Text, bytes, is_empty, text_eq, text_lt}
use flowbee.Base.Strings.{trim_space, lower, starts_with, ends_with}
use flowbee.Base.Sorting.{sort_stable}

pub record TestMatrix : Type 0 where
  pub arch : Text
  pub os : Text
  pub tools : List Text

unfoldable pub normalize_tag : Text → Text
normalize_tag s = lower (trim_space s)

-- `set[tag] = true`
unfoldable pub add_tag : Text → List Text → List Text
add_tag tag set = if any (text_eq tag) set then set else tag ∷ set

abbrev pub role_tester : Text
role_tester = bytes "role:tester"

abbrev pub arch_prefix : Text
arch_prefix = bytes "arch:"

abbrev pub os_prefix : Text
os_prefix = bytes "os:"

abbrev pub tool_prefix : Text
tool_prefix = bytes "tool:"

-- A declared value adds its tag, unless it is blank.
unfoldable pub add_declared : Text → Text → List Text → List Text
add_declared prefix value set =
    if is_empty (normalize_tag value) then set else add_tag (prefix ++ normalize_tag value) set

unfoldable pub add_tools : List Text → List Text → List Text
add_tools [] set = set
add_tools (t ∷ ts) set = add_declared tool_prefix t (add_tools ts set)

holds_slash : Text → Bool
holds_slash p = any (λ c. c == 47) p

-- What follows the last slash, or the whole path.
unfoldable pub file_name : Text → Text
unfolding holds_slash
file_name [] = []
file_name (c ∷ p) = let rest = file_name p in if holds_slash (c ∷ p) then rest else c ∷ p

unfoldable pub needs_docker : Text → Bool
needs_docker base =
    text_eq base (bytes "dockerfile")
    || starts_with (bytes "dockerfile.") base
    || ends_with (bytes ".dockerfile") base
    || text_eq base (bytes "docker-compose.yml")
    || text_eq base (bytes "compose.yml")

unfoldable pub needs_cgo : Text → Bool
needs_cgo base =
    ends_with (bytes ".c") base
    || ends_with (bytes ".h") base
    || ends_with (bytes ".cc") base
    || ends_with (bytes ".cpp") base
    || ends_with (bytes ".m") base

-- The tool that a touched path calls for.
unfoldable pub tool_of : Text → Option Text
tool_of raw =
    let p = lower (normalize_tag raw) in
    if is_empty p
    then none
    else if needs_docker (file_name p)
    then some (bytes "docker")
    else if needs_cgo (file_name p)
    then some (bytes "cgo")
    else none

unfoldable pub add_derived : List Text → List Text → List Text
add_derived [] set = set
add_derived (p ∷ ps) set = elim (tool_of p) [
  | none ↦ add_derived ps set
  | some t ↦ add_tag t (add_derived ps set)
]

unfoldable pub diff_derived_tools : List Text → List Text
diff_derived_tools touched = sort_stable text_lt (add_derived touched [])

unfoldable pub add_prefixed : List Text → List Text → List Text
add_prefixed [] set = set
add_prefixed (t ∷ ts) set = add_tag (tool_prefix ++ t) (add_prefixed ts set)

unfoldable pub derive_test_constraints : TestMatrix → List Text → List Text
derive_test_constraints m touched =
    let declared =
      add_tools m.tools
        (add_declared os_prefix m.os (add_declared arch_prefix m.arch (add_tag role_tester []))) in
    sort_stable text_lt (add_prefixed (diff_derived_tools touched) declared)
