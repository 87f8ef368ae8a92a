-- ===== src/Daemon.antt =====
-- daemon.go: the decisions of the sync daemon.
pub mod Decisions
pub mod Cycle
pub mod Cadence
pub mod Running
pub mod Log
