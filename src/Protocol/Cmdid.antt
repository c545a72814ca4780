-- ===== src/Protocol/Cmdid.antt =====
-- RDPAPPLIST_CMDID_*: the message kinds.
use wslg.Common.{ℕ}

abbrev pub caps : ℕ
caps = 0x00000001

abbrev pub update_applist : ℕ
update_applist = 0x00000002

abbrev pub delete_applist : ℕ
delete_applist = 0x00000003

abbrev pub delete_applist_provider : ℕ
delete_applist_provider = 0x00000004

abbrev pub associate_window_id : ℕ
associate_window_id = 0x00000005
