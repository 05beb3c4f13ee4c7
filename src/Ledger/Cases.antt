-- ===== src/Ledger/Cases.antt =====
-- internal/ledger/ledger.go: the cases of the switch in `Fold`, one function to a case, grouped by
-- the part of the program whose events they fold.
pub mod Shared
pub mod Lease
pub mod Build
pub mod Spec
pub mod Board
