-- ===== src/Protocol/Hint.antt =====
-- RDPAPPLIST_HINT_*: the hints of an update message.
use wslg.Common.{ℕ}

abbrev pub sync : ℕ
sync = 0x00100000

abbrev pub sync_start : ℕ
sync_start = 0x00200000

abbrev pub sync_end : ℕ
sync_end = 0x00400000
