-- ===== src/Job/Caps.antt =====
-- internal/job/job.go: capability tags, and the match of an attested set against required tags.
pub mod Match
use flowbee.Base.{Bool, true, false, ◌&&◌, if◌then◌else◌, List, [], ◌∷◌, ◌==◌}
use flowbee.Base.Text.{Text, bytes, text_eq}
use flowbee.Base.Strings.{starts_with}
use flowbee.Base.Lists.{any, all}

abbrev pub model_family_any : Text
model_family_any = bytes "model_family:*"

abbrev pub model_family_prefix : Text
model_family_prefix = bytes "model_family:"

unfoldable pub has_prefix : List Text → Text → Bool
has_prefix caps prefix = any (starts_with prefix) caps

-- `have[req]`
unfoldable pub have : List Text → Text → Bool
have attested req = any (text_eq req) attested

-- One round of the loop over the required tags.
unfoldable pub satisfied : List Text → Text → Bool
satisfied attested req =
    if text_eq req model_family_any
    then has_prefix attested model_family_prefix
    else have attested req

unfoldable pub capabilities_satisfy : List Text → List Text → Bool
capabilities_satisfy attested required = all (satisfied attested) required
