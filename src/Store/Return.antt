-- ===== src/Store/Return.antt =====
-- internal/store/queries.go: `Release`, with its writes to the tables next to the row and the events.
use flowbee.Base.{Bool, true, false, [], none, some}
use flowbee.Base.Text.{Text, bytes}
use flowbee.Ledger.Cases.Shared.{is_ready}
use flowbee.Store.Release.{ReleaseParams, rearm_state, store_release}
use flowbee.Store.Row.{JobStore}
use flowbee.Store.Tables.{
  Tables, BuildColumns, stale_epoch, Tx, rolled_back, committed, close_lease,
}

-- `CASE WHEN ? = 'ready' THEN '' ELSE … END`
unfoldable pub blank_build : Bool → BuildColumns → BuildColumns
blank_build true b = record b {
  patch_diff = [];
  declared_blast_radius = [];
  reservation_paths = [];
  reservation_wide = false;
}
blank_build false b = b

unfoldable pub release_writes : Tables → JobStore → Tables
release_writes db st = record db {
  store = st;
  build = blank_build (is_ready (rearm_state db.store.job.state)) db.build;
  live = record (db.live) { lease_hb_due = none };
  leases = close_lease db.store.job.lease_epoch (bytes "released") db.leases;
}

unfoldable pub return_lease : (Text → Text) → ReleaseParams → Tables → Tx Tables
return_lease sha256 p db = elim (store_release sha256 p db.store) [
  | none ↦ rolled_back stale_epoch
  | some st ↦ committed (release_writes db st)
]
