-- ===== src/Examples.antt =====
-- Sample states and events of the internal/ packages, with the theorems applied to them.
pub mod Samples
mod Decisions
mod Gates
pub mod Replay
mod Release
mod Build
mod Lifecycle
mod Staffing
mod Board
mod Operator
mod Queue
mod Diff
