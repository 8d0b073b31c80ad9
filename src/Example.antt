-- ===== src/Example.antt =====
-- The example program (go/example/main.go), which uses the SDK.
pub mod Watch
pub mod Watched
pub mod Timer
pub mod Tls
pub mod Session
pub mod Start
