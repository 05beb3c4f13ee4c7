-- ===== src/Ledger.antt =====
-- internal/ledger: the event-sourced spine.
pub mod Event
pub mod Cases
pub mod Fold
