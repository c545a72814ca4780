-- ===== src/Examples.antt =====
-- The theorems at concrete inputs: a stream and a channel made of lists stand in for WinPR.
pub mod Streams
pub mod Messages
pub mod Sending
pub mod Reading
pub mod Files
pub mod Desk
pub mod Receiving
pub mod Sessions
pub mod Daemons
pub mod Replies
pub mod Syncing
pub mod Fonts
pub mod Lives
pub mod Starting
pub mod Shortcuts
pub mod Launching
pub mod Closings
