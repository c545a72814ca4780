-- ===== src/Daemon.antt =====
-- The daemon WSLGd, which starts the compositor and the other processes and keeps them running.
pub mod ProcessMonitor
pub mod FontMonitor
pub mod Startup
