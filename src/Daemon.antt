-- ===== src/Daemon.antt =====
-- internal/daemon.
pub mod Logs
pub mod Command
pub mod Files
pub mod Process
pub mod Start
pub mod Status
pub mod Runtime
pub mod Run
pub mod Windows
