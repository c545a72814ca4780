-- ===== src/Server.antt =====
-- The Linux side of the channel: rdpapplist/server/rdpapplist_main.c.
pub mod WinPr
pub mod Pdu
pub mod Send
pub mod Input
pub mod Receive
pub mod Life
