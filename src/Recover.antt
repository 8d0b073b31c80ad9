-- ===== src/Recover.antt =====
-- go/v1/recover.go: pulling the trades of a window of days from the Core.
pub mod Days
pub mod Run
pub mod Query
