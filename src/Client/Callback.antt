-- ===== src/Client/Callback.antt =====
-- WSLDVCPlugin/WSLDVCCallback.cpp: the object that takes what the server sends and answers.
pub mod Steps
pub mod Sync
pub mod Key
pub mod Caps
pub mod Update
pub mod Publish
pub mod Delete
pub mod Associate
pub mod Windowed
pub mod Hoare
pub mod Confined
pub mod Receive
use wslg.Common.{ℕ, List, [], Bool, false, Option, none, replicate}
use wslg.Client.Pdu.{ServerCaps, empty_caps}
use wslg.Client.FileDb.{FileEntry}

-- The fields of WSLDVCCallback. `app_provider` is the WCHAR array, as its 520 bytes, since it is
-- filled by memcpy; the other arrays are the texts in them. `app_provider_guid` is Data1 of the GUID.
pub record State : Type 0 where
  pub file_db : List FileEntry
  pub file_db_sync : Option (List FileEntry)
  pub channel_closed : Bool
  pub hand_shake_complated : Bool
  pub server_caps : ServerCaps
  pub app_provider_guid : ℕ
  pub app_provider : List ℕ
  pub app_menu_path : List ℕ
  pub icon_path : List ℕ
  pub expanded_path_obj : List ℕ
  pub expanded_working_dir : List ℕ
  pub client_language_id : List ℕ

-- RuntimeClassInitialize, where the file database could be made.
abbrev pub initial : State
initial = record {
  file_db = [];
  file_db_sync = none;
  channel_closed = false;
  hand_shake_complated = false;
  server_caps = empty_caps;
  app_provider_guid = 0;
  app_provider = replicate 520 0;
  app_menu_path = [];
  icon_path = [];
  expanded_path_obj = [];
  expanded_working_dir = [];
  client_language_id = [];
}
