-- ===== src/Store/Lifecycle.antt =====
-- internal/store: the transactions on one build job as steps on its tables.
pub mod Rounds
pub mod Revocations
pub mod Soundness
pub mod Builds
pub mod Beats
pub mod Results
pub mod Returns
pub mod Judgements
pub mod Agreement
pub mod Reviews
pub mod Steps
pub mod Effects
pub mod Outcomes
pub mod Fences
pub mod Zombies
pub mod Leases
pub mod Claims
pub mod Mints
pub mod Responses
pub mod Repeats
pub mod Stalls
pub mod Governor
