-- ===== src/Store/Tables.antt =====
-- internal/store: the tables that the transactions on one job read and write, with the rows of that
-- job. A nullable column is an `Option`, and an instant a number of nanoseconds. Other jobs' leases
-- and timers are not rows here: lease ids are minted fresh for each lease, and a timer's id names its
-- job.
use flowbee.Base.{
  ℕ, ◌==◌, Bool, true, false, ◌&&◌, ◌||◌, if◌then◌else◌, List, [], ◌∷◌, ◌++◌, Option, none, some,
}
use flowbee.Base.Lists.{any}
use flowbee.Base.Int.{ℤ}
use flowbee.Base.Text.{Text, text_eq}
use flowbee.Job.Record.{Job}
use flowbee.Ledger.Event.{Event}
use flowbee.Liveness.{AgentHealth, unknown, Rung1Class, unknown_class, Rung2Verdict, abstain}
use flowbee.Store.Row.{JobStore}

-- A row of `leases`; `end_reason` is NULL as long as `ended_at` is.
pub record LeaseRow : Type 0 where
  pub lease_id : Text
  pub lease_epoch : ℕ
  pub identity : Text
  pub model_family : Text
  pub ttl_s : ℕ
  pub deadline : ℕ
  pub end_reason : Option Text

-- A row of `timers`.
pub record Timer : Type 0 where
  pub id : Text
  pub kind : Text
  pub due_at : ℕ
  pub expected_epoch : ℕ
  pub fired : Bool

-- A row of `workers`.
pub record Worker : Type 0 where
  pub worker_id : Text
  pub identity : Text
  pub max_concurrent_leases : ℤ
  pub last_seen_at : Option ℕ

-- The response that `result_idempotency` keeps for a key, one table for builds and reviews. A build's
-- response has the first two fields, and a missing field is read back as its zero value.
pub record Response : Type 0 where
  pub accepted : Bool
  pub job_state : Text
  pub verdict : Text
  pub minted : Bool

-- The columns of the job that hold its build for the review and for the content gate.
pub record BuildColumns : Type 0 where
  pub builder_identity : Option Text
  pub builder_model_family : Option Text
  pub head_ref : Text
  pub patch_diff : Text
  pub declared_blast_radius : Text
  pub reservation_paths : Text
  pub reservation_wide : Bool
  pub eng_worker_job : Option Text
  pub code_reviewer_job : Option Text
  pub bound_account : Text

-- The columns of the job that hold the clocks and the hints of its lease.
pub record LivenessColumns : Type 0 where
  pub lease_deadline : Option ℕ
  pub lease_hb_due : Option ℕ
  pub phase_deadline_at : Option ℕ
  pub last_heartbeat_at : Option ℕ
  pub agent_health : AgentHealth
  pub rung1_class : Rung1Class
  pub rung2_last_verdict : Rung2Verdict
  pub rung2_window_head : Text
  pub rung2_window_started_at : Option ℕ
  pub ci_running : Bool

pub record Tables : Type 0 where
  pub store : JobStore
  pub build : BuildColumns
  pub live : LivenessColumns
  pub ci_green : Bool
  pub leases : List LeaseRow
  pub timers : List Timer
  pub responses : List (Text × Response)
  pub workers : List Worker
  pub alarms : List (Text × ℕ)

-- How a transaction ends: it is rolled back with an error, or it commits.
pub data TxError : Type 0 where
  lost_race stale_epoch no_capacity constraint_violated illegal : TxError

pub data Tx (A : Type 0) : Type 0 where
  rolled_back : TxError → Tx A
  committed : A → Tx A

-- `appendEvent` and `setJobSeq`, next to the update of the row.
unfoldable pub append : Job → Event → JobStore → JobStore
append row e st = record { job = row; events = st.events ++ e ∷ [] }

unfoldable pub is_lease_conflict : LeaseRow → LeaseRow → Bool
is_lease_conflict r old = text_eq old.lease_id r.lease_id || (old.lease_epoch == r.lease_epoch)

-- `INSERT INTO leases`: the lease id is the key, and a job has one lease at an epoch.
unfoldable pub insert_lease : LeaseRow → List LeaseRow → Option (List LeaseRow)
insert_lease r rows = if any (is_lease_conflict r) rows then none else some (rows ++ r ∷ [])

unfoldable pub is_open : LeaseRow → Bool
is_open r = elim r.end_reason [ none ↦ true | some reason ↦ false ]

unfoldable pub end_lease : ℕ → Text → LeaseRow → LeaseRow
unfolding is_open
end_lease epoch reason r =
    if (r.lease_epoch == epoch) && is_open r then record r { end_reason = some reason } else r

-- `UPDATE leases … WHERE job_id = ? AND lease_epoch = ? AND ended_at IS NULL`
unfoldable pub close_lease : ℕ → Text → List LeaseRow → List LeaseRow
close_lease epoch reason [] = []
close_lease epoch reason (r ∷ rows) = end_lease epoch reason r ∷ close_lease epoch reason rows

has_timer_id : Text → Timer → Bool
has_timer_id id t = text_eq t.id id

-- `INSERT INTO timers`, whose key is the id.
unfoldable pub insert_timer : Timer → List Timer → Option (List Timer)
unfolding has_timer_id
insert_timer t timers = if any (has_timer_id t.id) timers then none else some (timers ++ t ∷ [])

-- The same with `ON CONFLICT (id) DO NOTHING`.
unfoldable pub arm_timer : Timer → List Timer → List Timer
arm_timer t timers = elim (insert_timer t timers) [ none ↦ timers | some armed ↦ armed ]

unfoldable pub fire_at : ℕ → Timer → Timer
fire_at epoch t = if t.expected_epoch == epoch then record t { fired = true } else t

-- `UPDATE timers SET fired = 1 WHERE job_id = ? AND expected_epoch = ? AND fired = 0`
unfoldable pub cancel_timers : ℕ → List Timer → List Timer
cancel_timers epoch [] = []
cancel_timers epoch (t ∷ ts) = fire_at epoch t ∷ cancel_timers epoch ts

unfoldable pub fire_id : Text → Timer → Timer
fire_id id t = if text_eq t.id id then record t { fired = true } else t

-- `UPDATE timers SET fired = 1 WHERE id = ?`
unfoldable pub mark_timer_fired : Text → List Timer → List Timer
mark_timer_fired id [] = []
mark_timer_fired id (t ∷ ts) = fire_id id t ∷ mark_timer_fired id ts

-- `COALESCE(a, b)`
unfoldable pub coalesce {ℓ} : {A : Type ℓ} → Option A → Option A → Option A
coalesce none old = old
coalesce (some a) old = some a

-- The clocks and hints as a revocation leaves them.
unfoldable pub reset_live : LivenessColumns → LivenessColumns
reset_live l = record l {
  lease_deadline = none;
  lease_hb_due = none;
  phase_deadline_at = none;
  agent_health = unknown;
  rung1_class = unknown_class;
  rung2_last_verdict = abstain;
  rung2_window_head = [];
  rung2_window_started_at = none;
  ci_running = false;
}

touch_worker : Text → ℕ → Worker → Worker
touch_worker identity now w =
    if text_eq w.identity identity then record w { last_seen_at = some now } else w

-- `UPDATE workers SET last_seen_at = ? WHERE identity = ?`
unfoldable pub touch_workers : Text → ℕ → List Worker → List Worker
unfolding touch_worker
touch_workers identity now [] = []
touch_workers identity now (w ∷ ws) = touch_worker identity now w ∷ touch_workers identity now ws
