-- ===== src/Client/Pdu.antt =====
-- The messages of WSLDVCPlugin/rdpapplist.h, as the plugin reads them in.
use wslg.Common.{ℕ, List, [], replicate}
use wslg.Protocol.{max_string_size}

-- A field `o` of type WCHAR[256], as its 512 bytes, with its `oLength`.
pub record WString : Type 0 where
  pub len : ℕ
  pub chars : List ℕ

abbrev pub empty_string : WString
empty_string = record { len = 0; chars = replicate max_string_size 0 }

pub record AppListHeader : Type 0 where
  pub cmd_id : ℕ
  pub len : ℕ

abbrev pub empty_header : AppListHeader
empty_header = record { cmd_id = 0; len = 0 }

pub record ServerCaps : Type 0 where
  pub version : ℕ
  pub app_list_provider_name : WString
  pub app_list_provider_unique_id : WString

abbrev pub empty_caps : ServerCaps
empty_caps = record {
  version = 0;
  app_list_provider_name = empty_string;
  app_list_provider_unique_id = empty_string;
}

pub record UpdateAppList : Type 0 where
  pub flags : ℕ
  pub app_id : WString
  pub app_group : WString
  pub app_exec_path : WString
  pub app_working_dir : WString
  pub app_desc : WString

abbrev pub empty_update : UpdateAppList
empty_update = record {
  flags = 0;
  app_id = empty_string;
  app_group = empty_string;
  app_exec_path = empty_string;
  app_working_dir = empty_string;
  app_desc = empty_string;
}

pub record IconData : Type 0 where
  pub flags : ℕ
  pub icon_width : ℕ
  pub icon_height : ℕ
  pub icon_stride : ℕ
  pub icon_bpp : ℕ
  pub icon_format : ℕ
  pub icon_bits_length : ℕ
  pub icon_file_size : ℕ
  pub icon_file_data : List ℕ

-- ZeroMemory(iconData, sizeof(*iconData))
abbrev pub empty_icon : IconData
empty_icon = record {
  flags = 0;
  icon_width = 0;
  icon_height = 0;
  icon_stride = 0;
  icon_bpp = 0;
  icon_format = 0;
  icon_bits_length = 0;
  icon_file_size = 0;
  icon_file_data = [];
}

pub record DeleteAppList : Type 0 where
  pub flags : ℕ
  pub app_id : WString
  pub app_group : WString

abbrev pub empty_delete : DeleteAppList
empty_delete = record { flags = 0; app_id = empty_string; app_group = empty_string }

pub record AssociateWindowId : Type 0 where
  pub flags : ℕ
  pub app_window_id : ℕ
  pub app_id : WString
  pub app_group : WString
  pub app_exec_path : WString
  pub app_desc : WString

abbrev pub empty_associate : AssociateWindowId
empty_associate = record {
  flags = 0;
  app_window_id = 0;
  app_id = empty_string;
  app_group = empty_string;
  app_exec_path = empty_string;
  app_desc = empty_string;
}
