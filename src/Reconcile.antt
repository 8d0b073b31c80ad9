-- ===== src/Reconcile.antt =====
-- The reconciliation of an hour with the Core (go/v1/reconcile.go): the comparison of the checksums, and of one trade.
pub mod Checksum
pub mod Diff
pub mod Window
pub mod Run
pub mod Repair
pub mod Closed
pub mod Recorded
pub mod Repaired
pub mod Answered
pub mod LastHour
pub mod Local
pub mod Held
pub mod Drill
