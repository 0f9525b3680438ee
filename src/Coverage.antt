-- ===== src/Coverage.antt =====
-- tools/coverage/src/main.rs: the tool that measures the services' coverage.
pub mod Types
pub mod Paths
pub mod Lines
pub mod Commands
pub mod Print
pub mod Main
