-- ===== src/Client.antt =====
-- The client as a whole: its construction (go/v1/client.go), and what any sequence of its operations
-- keeps.
pub mod Config
pub mod Later
pub mod Trades
pub mod Runs
pub mod Hours
pub mod Inserts
pub mod Updates
pub mod Orders
pub mod Answers
pub mod Reads
pub mod History
pub mod Repeat
