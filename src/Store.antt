-- ===== src/Store.antt =====
-- internal/store: the transactions that apply decisions to a job's row and ledger.
pub mod Row
pub mod Tables
pub mod Revoke
pub mod Slots
pub mod Claim
pub mod Release
pub mod Return
pub mod Requeue
pub mod Complete
pub mod Heartbeat
pub mod Result
pub mod Watch
pub mod Alarms
pub mod Panel
pub mod Review
pub mod Verdicts
pub mod Lifecycle
