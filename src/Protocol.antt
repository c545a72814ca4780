-- ===== src/Protocol.antt =====
-- The constants of the remote application list protocol, which rdpapplist/rdpapplist_protocol.h
-- gives to the Linux side and WSLDVCPlugin/rdpapplist.h, with the same values, to the Windows side.
pub mod Cmdid
pub mod Field
pub mod Hint
use wslg.Common.{ℕ}

abbrev pub channel_version : ℕ
channel_version = 4

abbrev pub header_size : ℕ
header_size = 8

abbrev pub lang_size : ℕ
lang_size = 32

abbrev pub max_string_size : ℕ
max_string_size = 512
