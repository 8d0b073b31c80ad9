-- ===== src/Tests.antt =====
-- Concrete inputs.
pub mod Sample
pub mod Ordering
pub mod Settled
pub mod Storing
pub mod Windows
pub mod Watching
