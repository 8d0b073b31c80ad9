-- ===== src/Time.antt =====
-- Calendar dates, instants and the fixed UTC+05:00 zone (go/v1/timezone.go, and what the other files
-- use of Go's `time` package).
pub mod Date
pub mod Layout
pub mod Zone
