-- ===== src/Job.antt =====
-- internal/job: the domain types, the state machine and the gates.
pub mod State
pub mod Transition
pub mod Caps
pub mod Verdict
pub mod Gate
pub mod SpecGate
pub mod CiFact
pub mod Record
pub mod TestJob
