-- ===== src/Client.antt =====
-- The Windows side of the channel: the plugin in WSLDVCPlugin/.
pub mod Memory
pub mod Hresult
pub mod Pdu
pub mod Reader
pub mod Read
pub mod FileDb
pub mod Path
pub mod Windows
pub mod SyncDb
pub mod Callback
pub mod Provider
pub mod Shell
pub mod Trust
pub mod Plugin
