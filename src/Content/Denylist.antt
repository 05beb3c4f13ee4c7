-- ===== src/Content/Denylist.antt =====
-- internal/content/content.go: the path denylist, its five shipped classes and the configured one.
pub mod Protection
use flowbee.Base.{Bool, true, false, not, ◌&&◌, ◌||◌, if◌then◌else◌, List, [], ◌∷◌, ◌++◌}
use flowbee.Base.Text.{Text, bytes, text_eq, text_lt, is_empty}
use flowbee.Base.Strings.{starts_with, ends_with, contains, is_one_of, trim_prefix, lower}
use flowbee.Base.Lists.{any, keep}
use flowbee.Base.Sorting.{sort_stable}
use flowbee.Content.Paths.{normalize_path, base_name, has_any_base, covers}

unfoldable pub is_ci_workflow : Text → Bool
is_ci_workflow p =
    starts_with (bytes ".github/workflows/") p
    || starts_with (bytes ".github/actions/") p
    || text_eq p (bytes ".github/workflows")
    || has_any_base p
        (bytes ".gitlab-ci.yml" ∷ bytes "azure-pipelines.yml" ∷ bytes ".circleci/config.yml" ∷ [])
    || starts_with (bytes ".circleci/") p

-- The names of the first `switch`.
abbrev pub manifest_names : List Text
manifest_names =
    bytes "package-lock.json"
    ∷ bytes "yarn.lock"
    ∷ bytes "pnpm-lock.yaml"
    ∷ bytes "npm-shrinkwrap.json"
    ∷ bytes "gemfile.lock"
    ∷ bytes "poetry.lock"
    ∷ bytes "pipfile.lock"
    ∷ bytes "go.sum"
    ∷ bytes "cargo.lock"
    ∷ bytes "composer.lock"
    ∷ bytes "go.mod"
    ∷ bytes "cargo.toml"
    ∷ bytes "package.json"
    ∷ bytes "pyproject.toml"
    ∷ bytes "gemfile"
    ∷ []

abbrev pub hook_names : List Text
hook_names =
    bytes "preinstall"
    ∷ bytes "postinstall"
    ∷ bytes "preuninstall"
    ∷ bytes "postuninstall"
    ∷ bytes "prepare"
    ∷ bytes "prepublish"
    ∷ []

unfoldable pub is_hook : Text → Text → Bool
is_hook base hook =
    text_eq base hook || text_eq base (hook ++ bytes ".js") || text_eq base (hook ++ bytes ".sh")

unfoldable pub is_lockfile_or_lifecycle : Text → Bool
is_lockfile_or_lifecycle p =
    let base = base_name p in
    is_one_of manifest_names base || ends_with (bytes ".lock") base || any (is_hook base) hook_names

unfoldable pub is_dockerfile_or_devcontainer : Text → Bool
is_dockerfile_or_devcontainer p =
    let base = base_name p in
    if text_eq base (bytes "dockerfile")
      || starts_with (bytes "dockerfile.") base
      || ends_with (bytes ".dockerfile") base
      || text_eq base (bytes ".dockerignore")
    then true
    else starts_with (bytes ".devcontainer/") p || text_eq base (bytes "devcontainer.json")

-- A `.env.` file that is not one of the templates.
unfoldable pub is_env_file : Text → Bool
is_env_file base =
    starts_with (bytes ".env.") base
    && not (
        is_one_of (bytes "example" ∷ bytes "sample" ∷ bytes "template" ∷ bytes "dist" ∷ [])
          (trim_prefix (bytes ".env.") base))

unfoldable pub is_key_file : Text → Bool
is_key_file base =
    ends_with (bytes ".pem") base
    || ends_with (bytes ".key") base
    || ends_with (bytes ".pfx") base
    || ends_with (bytes ".p12") base
    || ends_with (bytes ".keystore") base
    || ends_with (bytes ".jks") base

unfoldable pub is_secret_material : Text → Bool
is_secret_material p =
    let base = base_name p in
    if text_eq base (bytes ".env") || ends_with (bytes ".env") base
    then true
    else if is_env_file base
    then true
    else if is_key_file base
    then true
    else if is_one_of
        (bytes "id_rsa"
          ∷ bytes "id_ed25519"
          ∷ bytes "id_dsa"
          ∷ bytes "id_ecdsa"
          ∷ bytes ".npmrc"
          ∷ bytes ".netrc"
          ∷ bytes ".pypirc"
          ∷ [])
        base
    then true
    else contains (bytes "/secrets/") (lower p)
      || starts_with (bytes "secrets/") (lower p)
      || contains (bytes "/credentials") (lower p)
      || starts_with (bytes "credentials") (lower p)

unfoldable pub is_flowbee_source : Text → Bool
is_flowbee_source p =
    starts_with (bytes "internal/") p
    || starts_with (bytes "cmd/flowbee/") p
    || starts_with (bytes "tools/") p
    || starts_with (bytes "flows/") p
    || text_eq (base_name p) (bytes "flowbee.yaml")
    || text_eq p (bytes "internal/content/content.go")

pub record Matcher : Type 0 where
  pub name : Text
  pub match : Text → Bool

-- `denyMatchers`
abbrev pub deny_matchers : List Matcher
deny_matchers =
    record { name = bytes "ci_workflow"; match = is_ci_workflow }
    ∷ record { name = bytes "lockfile_or_lifecycle"; match = is_lockfile_or_lifecycle }
    ∷ record { name = bytes "dockerfile_or_devcontainer"; match = is_dockerfile_or_devcontainer }
    ∷ record { name = bytes "secret_material"; match = is_secret_material }
    ∷ record { name = bytes "flowbee_source"; match = is_flowbee_source }
    ∷ []

-- One round of the loop over the prefixes.
unfoldable pub prefix_covers : Text → Text → Bool
prefix_covers p raw =
    let np = lower (normalize_path raw) in if is_empty np then false else covers np p

unfoldable pub matches_any_prefix : Text → List Text → Bool
matches_any_prefix p prefixes = any (prefix_covers p) prefixes

-- A hit is "class:path".
unfoldable pub hit : Text → Text → Text
hit class np = class ++ (bytes ":" ++ np)

-- The loop's two variables: the keys that were seen, and the hits.
pub record Hits : Type 0 where
  pub seen : List Text
  pub out : List Text

-- `if !seen[np+"|"+name] { seen[np+"|"+name] = true; out = append(out, name+":"+np) }`
unfoldable pub add_hit : Text → Text → Hits → Hits
add_hit class np s =
    let key = np ++ (bytes "|" ++ class) in
    if any (text_eq key) s.seen
    then s
    else record { seen = key ∷ s.seen; out = s.out ++ (hit class np ∷ []) }

-- The loop over the classes. The path is matched in lower case and reported as it is.
unfoldable pub add_classes : List Matcher → Text → Hits → Hits
add_classes [] np s = s
add_classes (m ∷ matchers) np s =
    add_classes matchers np (if m.match (lower np) then add_hit m.name np s else s)

-- One round of the loop over the touched paths.
unfoldable pub add_path : List Text → Text → Hits → Hits
add_path extra np s =
    let classed = add_classes deny_matchers np s in
    if is_empty np
    then s
    else if matches_any_prefix (lower np) extra
    then add_hit (bytes "configured") np classed
    else classed

unfoldable pub hits_from : List Text → List Text → Hits → Hits
hits_from extra [] s = s
hits_from extra (t ∷ touched) s = hits_from extra touched (add_path extra (normalize_path t) s)

unfoldable pub denylist_hits_with : List Text → List Text → List Text
denylist_hits_with touched extra =
    sort_stable text_lt (hits_from extra touched (record { seen = []; out = [] })).out

unfoldable pub denylist_hits : List Text → List Text
denylist_hits touched = denylist_hits_with touched []

unfoldable pub without_class : List Text → Text → List Text
without_class hits class = keep (λ h. not (starts_with (class ++ bytes ":") h)) hits

unfoldable pub matches_class : List Matcher → Text → Bool
matches_class matchers p = any (λ m. m.match p) matchers

unfoldable pub is_denylisted : Text → Bool
is_denylisted p =
    let np = normalize_path p in
    if is_empty np then false else matches_class deny_matchers (lower np)
