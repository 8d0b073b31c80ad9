-- ===== src/Trade.antt =====
-- The trade stream and settlement (go/v1/trade.go).
pub mod Statements
pub mod Persist
pub mod Storage
pub mod Delivery
pub mod Once
pub mod Settle
pub mod Stream
pub mod Extends
pub mod Progress
pub mod Subscribe
pub mod Spared
pub mod Pull
pub mod Tally
pub mod Unsettled
pub mod Untouched
pub mod Retried
