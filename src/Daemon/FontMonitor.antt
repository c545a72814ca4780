-- ===== src/Daemon/FontMonitor.antt =====
-- WSLGd/FontMonitor.cpp: the directories of fonts that are watched, and the font path of the X
-- server. Paths are lists of bytes.
pub mod System
pub mod Folder
pub mod Monitor
