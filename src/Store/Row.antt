-- ===== src/Store/Row.antt =====
-- internal/store/queries.go: `loadJobTx`, `appendEvent` and `setJobSeq`. A job in the store is its row
-- and its events; a transaction reads both, appends events and updates columns of the row.
pub mod Replay
use flowbee.Base.{List, []}
use flowbee.Base.Int.{pos}
use flowbee.Base.{none, false}
use flowbee.Job.Record.{Job}
use flowbee.Ledger.Event.{Event}

pub record JobStore : Type 0 where
  pub job : Job
  pub events : List Event

-- The columns in which the updates and `Fold` agree. The other ones are blanked: the stage, the aging
-- clock, the lens and the review notes, which an update and the case of its event set at different
-- places, and those that only an insert sets.
unfoldable pub logged : Job → Job
logged j = record j {
  stage = [];
  enqueued_at = 0;
  bound_lens = [];
  repo = [];
  chat_ref = [];
  spec_ref = [];
  parent_job = [];
  epic_id = [];
  is_epic = false;
  flow_id = [];
  last_review_notes = [];
  diff_empty = false;
  max_attempts = 0;
  max_bounces = 0;
  cost_ceiling_micro_usd = none;
}
