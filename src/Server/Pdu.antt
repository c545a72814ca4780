-- ===== src/Server/Pdu.antt =====
-- The messages of rdpapplist/rdpapplist_protocol.h, as the server's callers fill them in.
use wslg.Common.{ℕ, List, Option}

-- FreeRDP's RAIL_UNICODE_STRING: a length in bytes and the bytes pointed at.
pub record RailString : Type 0 where
  pub len : ℕ
  pub string : List ℕ

pub record Header : Type 0 where
  pub cmd_id : ℕ
  pub len : ℕ

pub record ServerCapsPdu : Type 0 where
  pub version : ℕ
  pub app_list_provider_name : RailString
  pub app_list_provider_unique_id : RailString

pub record IconDataPdu : Type 0 where
  pub flags : ℕ
  pub icon_width : ℕ
  pub icon_height : ℕ
  pub icon_stride : ℕ
  pub icon_bpp : ℕ
  pub icon_format : ℕ
  pub icon_bits_length : ℕ
  pub icon_bits : List ℕ

-- `app_icon` is a pointer, `none` for NULL.
pub record UpdateApplistPdu : Type 0 where
  pub flags : ℕ
  pub app_id : RailString
  pub app_group : RailString
  pub app_exec_path : RailString
  pub app_working_dir : RailString
  pub app_desc : RailString
  pub app_icon : Option IconDataPdu

pub record DeleteApplistPdu : Type 0 where
  pub flags : ℕ
  pub app_id : RailString
  pub app_group : RailString

pub record DeleteApplistProviderPdu : Type 0 where
  pub flags : ℕ
  pub app_list_provider_name : RailString

pub record AssociateWindowIdPdu : Type 0 where
  pub flags : ℕ
  pub app_window_id : ℕ
  pub app_id : RailString
  pub app_group : RailString
  pub app_exec_path : RailString
  pub app_desc : RailString
