-- ===== src/Examples/Messages.antt =====
-- The messages of the examples, with what the theorems ask of them.
use wslg.Common.{
  ℕ, ◌+◌, ◌≡◌, refl, [], ◌∷◌, Bool, true, false, some, has_flag, has_all_flags, arith, length,
  replicate,
}
use wslg.Common.{IsU32}
use wslg.Protocol.{channel_version, header_size}
use wslg.Server.Pdu.{
  RailString, ServerCapsPdu, IconDataPdu, UpdateApplistPdu, DeleteApplistPdu,
  DeleteApplistProviderPdu, AssociateWindowIdPdu,
}
use wslg.Server.Send.Payload.{update_applist_payload, update_strings, icon_field_bytes, field_bytes}
use wslg.Server.Send.Sizes.{Fits, StringsFit, IsSendable}
use wslg.Server.Send.Sizes.Short.{CapsFit}
use wslg.Wire.Reads.{IsReadable}
use wslg.Wire.RoundTrip.{UpdateReadable, DeleteReadable, AssociateReadable, CapsReadable}
use wslg.Wire.Icon.{IconReadable}

-- "ab" in UTF-16.
abbrev pub ab : RailString
ab = record { len = 4; string = 97 ∷ 0 ∷ 98 ∷ 0 ∷ [] }

abbrev pub no_string : RailString
no_string = record { len = 0; string = [] }

abbrev pub icon : IconDataPdu
icon = record {
  flags = 0;
  icon_width = 1;
  icon_height = 1;
  icon_stride = 4;
  icon_bpp = 32;
  icon_format = 0;
  icon_bits_length = 4;
  icon_bits = 9 ∷ 8 ∷ 7 ∷ 6 ∷ [];
}

abbrev pub update : UpdateApplistPdu
update = record {
  flags = 0x1d;
  app_id = ab;
  app_group = no_string;
  app_exec_path = ab;
  app_working_dir = no_string;
  app_desc = ab;
  app_icon = some icon;
}

abbrev pub caps : ServerCapsPdu
caps = record {
  version = channel_version;
  app_list_provider_name = ab;
  app_list_provider_unique_id = ab;
}

-- A name of 512 bytes, which the server takes.
abbrev pub long_caps : ServerCapsPdu
long_caps = record caps { app_list_provider_name = record { len = 512; string = replicate 512 97 } }

abbrev pub delete : DeleteApplistPdu
delete = record { flags = 0x3; app_id = ab; app_group = ab }

abbrev pub delete_provider : DeleteApplistProviderPdu
delete_provider = record { flags = 0x20; app_list_provider_name = ab }

abbrev pub associate : AssociateWindowIdPdu
associate = record {
  flags = 0x8d;
  app_window_id = 7;
  app_id = ab;
  app_group = no_string;
  app_exec_path = ab;
  app_desc = ab;
}

pub ab-Fits : (flags field : ℕ) → Fits flags field ab
ab-Fits flags field on = (omega arith, omega arith)

pub no_string-Fits : (flags field : ℕ) → Fits flags field no_string
no_string-Fits flags field on = (omega arith, omega arith)

pub update-StringsFit : StringsFit update
update-StringsFit = record {
  id_fits = ab-Fits _ _;
  group_fits = no_string-Fits _ _;
  execpath_fits = ab-Fits _ _;
  workingdir_fits = no_string-Fits _ _;
  desc_fits = ab-Fits _ _;
}

pub update-IsSendable : IsSendable update
update-IsSendable = record { strings = update-StringsFit; icon = λ on. (icon, refl, omega arith) }

update-length : length (update_applist_payload update) ≡ 54
unfolding update_applist_payload has_flag update_strings icon_field_bytes field_bytes
update-length = refl

pub update-IsU32 : IsU32 (header_size + length (update_applist_payload update))
update-IsU32 = omega (arith, update-length)

pub caps-CapsFit : CapsFit caps
caps-CapsFit = record {
  name_fits = omega arith;
  name_stored = omega arith;
  unique_id_u16 = omega arith;
  unique_id_stored = omega arith;
}

pub long_caps-CapsFit : CapsFit long_caps
long_caps-CapsFit = record {
  name_fits = omega arith;
  name_stored = omega arith;
  unique_id_u16 = omega arith;
  unique_id_stored = omega arith;
}

pub ab-IsReadable : (required : Bool) → IsReadable required ab
ab-IsReadable required = record {
  short = omega arith;
  in_buffer = omega arith;
  present = λ e. omega arith;
}

pub no_string-IsReadable : IsReadable false no_string
no_string-IsReadable = record { short = omega arith; in_buffer = omega arith; present = λ e. cc }

pub update-UpdateReadable : UpdateReadable update
unfolding has_all_flags
update-UpdateReadable = record {
  flags_u32 = omega arith;
  required_flags = refl;
  id_readable = λ on. ab-IsReadable _;
  group_readable = λ on. no_string-IsReadable;
  execpath_readable = λ on. ab-IsReadable _;
  workingdir_readable = λ on. no_string-IsReadable;
  desc_readable = λ on. ab-IsReadable _;
}

pub delete-DeleteReadable : DeleteReadable delete
unfolding has_all_flags
delete-DeleteReadable = record {
  flags_u32 = omega arith;
  required_flags = refl;
  id_readable = λ on. ab-IsReadable _;
  group_readable = λ on. ab-IsReadable _;
}

pub associate-AssociateReadable : AssociateReadable associate
unfolding has_all_flags
associate-AssociateReadable = record {
  flags_u32 = omega arith;
  window_id_u32 = omega arith;
  required_flags = refl;
  id_readable = λ on. ab-IsReadable _;
  group_readable = λ on. no_string-IsReadable;
  execpath_readable = λ on. ab-IsReadable _;
  desc_readable = λ on. ab-IsReadable _;
}

pub caps-CapsReadable : CapsReadable caps
caps-CapsReadable = record {
  version_u16 = omega arith;
  version_4 = omega arith;
  name_readable = ab-IsReadable _;
  unique_id_readable = ab-IsReadable _;
}

pub icon-IconReadable : IconReadable (λ n. true) icon
icon-IconReadable = record {
  flags_u32 = omega arith;
  width_u32 = omega arith;
  height_u32 = omega arith;
  stride_u32 = omega arith;
  bpp_u32 = omega arith;
  format_u32 = omega arith;
  small = omega arith;
  stored = omega arith;
  allocated = refl;
}
