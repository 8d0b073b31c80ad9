-- ===== src/Order.antt =====
-- The order operations (go/v1/order.go).
pub mod Check
pub mod Statements
pub mod Submit
pub mod Cancel
pub mod Events
pub mod Query
pub mod Terms
pub mod Inserted
pub mod Repeat
pub mod Named
