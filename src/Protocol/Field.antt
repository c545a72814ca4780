-- ===== src/Protocol/Field.antt =====
-- RDPAPPLIST_FIELD_*: the fields that a message carries.
use wslg.Common.{ℕ}

abbrev pub id : ℕ
id = 0x00000001

abbrev pub group : ℕ
group = 0x00000002

abbrev pub execpath : ℕ
execpath = 0x00000004

abbrev pub desc : ℕ
desc = 0x00000008

abbrev pub icon : ℕ
icon = 0x00000010

abbrev pub provider : ℕ
provider = 0x00000020

abbrev pub workingdir : ℕ
workingdir = 0x00000040

abbrev pub window_id : ℕ
window_id = 0x00000080
