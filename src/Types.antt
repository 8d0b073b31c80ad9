-- ===== src/Types.antt =====
-- The data types of go/v1/types.go.
mod Codes
mod Orders
mod Trades
mod Runs
pub use Codes.*
unfoldable pub use Orders.*
pub use Trades.*
unfoldable pub use Runs.*
