-- ===== src/Lib.antt =====
-- Flowbee moves jobs (specs, builds, reviews, merges) through a state machine while untrusted workers
-- hold leases on them. A pure core decides, a ledger of events records, and the projection of a job
-- is the fold of its events. This library models that core: the packages under internal/ that hold
-- the rules, without their I/O.
--
-- The parts and how they interact.
--   internal/job holds the vocabulary. job.go: states, roles, kinds and pure predicates (Job/State, with
--   the range of priorities in Job/State/Bounds), capability matching (Job/Caps, Job/Caps/Match) and
--   the job projection (Job/Record). transition.go: the table `Next` (Job/Transition) and its runs
--   (Job/Transition/Runs). verdict.go: verdicts and spec sign-offs with their integrity hash
--   (Job/Verdict, Job/Verdict/Binding), the code-review gate `EvaluateGate` (Job/Gate,
--   Job/Gate/Decisions) and the spec gate `EvaluateSpecGate` (Job/SpecGate, Job/SpecGate/Decisions).
--   cifact.go: `CIGreenAtHead` (Job/CiFact). testjob.go: the tags that a test job requires (Job/TestJob,
--   Job/TestJob/Routing).
--   internal/flow: identity.go and the stages of flow.go (Flow), their resolution in resolve.go
--   (Flow/Resolve), the anti-affinity (Flow/AntiAffinity, Flow/Independence) and overrides on a fan-out
--   (Flow/Clashes).
--   internal/content/content.go: the outcome of the content gate, which the self-merge predicate reads
--   (Content), path helpers (Content/Paths), the denylist (Content/Denylist,
--   Content/Denylist/Protection) and the declared blast-radius (Content/Radius,
--   Content/Radius/Tampering).
--   internal/liveness/liveness.go: the stall ladder `EvaluateKill` and the fast paths (Liveness,
--   Liveness/Kills).
--   internal/engine/engine.go: `Decide`, which takes a snapshot and one event and returns a decision
--   (Engine, with the data in Engine/Types, the arms of lease events in Engine/Lease and those of
--   claims and merges in Engine/Review). It asks the gates and the ladder. Its proofs are about the
--   fence (Engine/Fencing), the table (Engine/Edges, Engine/Edges/Arms, Engine/OffTable) and mints and
--   merges (Engine/Minting).
--   internal/ledger/ledger.go: the events (Ledger/Event) and `Fold`, one function for each case of its
--   switch (Ledger/Cases) and the rest of its loop (Ledger/Fold), with proofs under Ledger/Fold.
--   internal/scheduler: scheduler.go ranks the candidates (Scheduler, Scheduler/Ranking); reservation.go
--   keeps overlapping write-sets apart (Scheduler/Reservation, Scheduler/Reservation/Filter).
--   internal/capacity/capacity.go: accounts under usage ceilings (Capacity, Capacity/Selection).
--   internal/store: the transactions on one job. Store/Tables holds the rows that they read and write,
--   with the job's row and its events in Store/Row, and Store/Slots what they read of other jobs and of the
--   fleet (capacity.go, with what the slot gate and the account selection let pass in Store/Slots/Room).
--   queries.go: `ClaimReadyJob` (Store/Claim, with the independence of the claimant in
--   Store/Claim/Guards), `Heartbeat` (Store/Heartbeat), `Result`
--   (Store/Result) `Release` (Store/Release on the row and its events, Store/Return on all tables)
--   and `CompleteJob`, on the rows of all jobs (Store/Complete, Store/Complete/Unblocking).
--   liveness.go: `applyRevokeTx` (Store/Revoke), and `ArmLeaseLivenessTimers`, `EvaluateLiveness` and
--   `FireLeaseDeadline` (Store/Watch). timers.go: `FireNoEligibleWorker` (Store/Alarms). flow.go:
--   `ClaimReviewJob` (Store/Review), `ReviewResult` (Store/Verdicts, with epoch.go's `epochGatedCITx`)
--   and the queries of both on the approvals of a round (Store/Panel). requeue.go: the operator's `RequeueJob`
--   and `CancelJob` (Store/Requeue, Store/Requeue/Replays, Store/Requeue/Fences). Each transaction asks the engine,
--   the slot gate or the table as its function does, then writes rows, events and timers together.
--   Store/Lifecycle puts the transactions together as the steps of a relation (Store/Lifecycle/Steps) and
--   has the proofs about any sequence of them; Store/Row/Replay, Store/Release/Projection and
--   Store/Release/Divergence compare the row with the fold of its events.
--   Base holds what the parts share: Boolean tests, texts, Go's string and path functions, integers,
--   decimals, sorting. Examples applies the theorems to samples.
--
-- How the code is modelled.
--   A function of the source is a function here, and a long switch is one function for each arm, put
--   together by a function that matches on the event, the kind or the trigger. `Decide` and `Fold`
--   are total as they stand, and so is every transaction, so nothing runs on fuel. A pointer that may
--   be nil is an Option; an error of the table is `none`. A Go string is its list of bytes, and an enumeration of strings that only
--   the program fills is a data type with a constructor for the zero value. A claim of a worker stays
--   a text, or has a constructor for any other text, since workers may send anything.
--   Counters, versions and epochs are natural numbers and wait times are nanoseconds, since the program
--   keeps them non-negative; priorities, percents, costs and rates are integers. None of them wraps
--   around: no sum of the program comes near 2^63.
--   A transaction of the store takes the tables of its job and gives new ones with its answer, or an error
--   with nothing written, as SQLite's does. The tables hold the rows of one job; those of other jobs, the
--   workers' slots and the accounts that a claim reads are its argument. A nullable column is an Option,
--   and an instant counts the nanoseconds since the zero time. The store writes one transaction at a
--   time, so transactions interleave as a sequence of steps, in any order. A job that is not found, the
--   clock columns that SQLite fills in (updated_at, ended_at) and the column of the stored content
--   result are left out, and the result of the content gate is an input of the review.
--   `sha256` is the standard library's and a parameter of every definition that mints or verifies.
--   Nothing is assumed of it, save that Job/Verdict/Binding takes the absence of one collision as a
--   hypothesis of the theorem that needs it. `sort.SliceStable` is insertion sort, which is stable
--   as well. The functions of the packages strings and path are those of ASCII text.
--
-- What is not modelled: the other transactions of internal/store (seeding, specs, cost,
--   merge dispatch, conflicts, the janitor, reconciliation) and its plain queries, and of the
--   rows the columns that no modelled transaction uses; the diff parser and the static checks of
--   internal/content; the provider lint and the loading of internal/flow; reconciliation with GitHub (internal/reconcile) and the fan-out over
--   repositories (internal/multirepo); and the I/O around them: the API, git, GitHub, workers,
--   files, the command line.
pub mod Base
pub mod Job
pub mod Flow
pub mod Content
pub mod Liveness
pub mod Capacity
pub mod Ledger
pub mod Engine
pub mod Scheduler
pub mod Store
pub mod Examples
