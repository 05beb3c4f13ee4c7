-- ===== src/Ledger/Cases/Shared.antt =====
-- The three assignments that most cases of `Fold` share, and the two state tests.
use flowbee.Base.{Bool, true, false, if◌then◌else◌, []}
use flowbee.Base.Text.{Text, bytes, is_empty}
use flowbee.Job.State.{State, ready, spec_authoring}
use flowbee.Job.Record.{Job}

-- `j.LeaseID = ""; j.BoundIdentity = ""; j.BoundModelFamily = ""`
unfoldable pub clear_lease : Job → Job
clear_lease j = record j { lease_id = []; bound_identity = []; bound_model_family = [] }

unfoldable pub is_ready : State → Bool
is_ready ready = true
is_ready _ = false

unfoldable pub is_spec_authoring : State → Bool
is_spec_authoring spec_authoring = true
is_spec_authoring _ = false

-- `if s != "" { field = s }`
unfoldable pub set_if : Text → Text → Text
set_if new old = if is_empty new then old else new

abbrev pub stage_build : Text
stage_build = bytes "build"

abbrev pub stage_spec : Text
stage_spec = bytes "spec"

abbrev pub stage_review : Text
stage_review = bytes "review"
