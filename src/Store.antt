-- ===== src/Store.antt =====
-- The partner's database (go/db.sql) and the calls that the SDK makes to it and to the Core.
mod Tables
mod Calls
unfoldable pub use Tables.*
pub mod Laws
pub mod Rows
pub mod Quiet
unfoldable pub use Calls.*
