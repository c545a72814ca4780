-- ===== src/Daemon/Startup.antt =====
-- WSLGd/main.cpp: what the daemon does before it watches its processes.
pub mod Text
pub mod Host
pub mod Steps
pub mod Helpers
pub mod CommandLines
pub mod Preparation
pub mod Main
