-- ===== src/Server/Send/Payload.antt =====
-- The wire format of the five messages, written down apart from the code that computes a length
-- first and then writes: what a message carries after its header, and the whole message.
use wslg.Common.{ℕ, ◌+◌, List, [], ◌++◌, Option, none, some}
use wslg.Common.{if◌then◌else◌, has_flag, bytes_of_u16, bytes_of_u32, length, take}
use wslg.Protocol.{header_size}
use wslg.Protocol.Field
use wslg.Server.Pdu.{
  RailString, ServerCapsPdu, IconDataPdu, UpdateApplistPdu, DeleteApplistPdu,
  DeleteApplistProviderPdu, AssociateWindowIdPdu,
}

abbrev pub string_bytes : RailString → List ℕ
string_bytes x = bytes_of_u16 x.len ++ take x.len x.string

unfoldable pub field_bytes : ℕ → ℕ → RailString → List ℕ
field_bytes flags field x = if has_flag flags field then string_bytes x else []

abbrev pub icon_bytes : IconDataPdu → List ℕ
icon_bytes d =
    bytes_of_u32 d.flags
    ++ (bytes_of_u32 d.icon_width
        ++ (bytes_of_u32 d.icon_height
            ++ (bytes_of_u32 d.icon_stride
                ++ (bytes_of_u32 d.icon_bpp
                    ++ (bytes_of_u32 d.icon_format
                        ++ (bytes_of_u32 d.icon_bits_length
                            ++ take d.icon_bits_length d.icon_bits))))))

abbrev pub icon_or_nothing : Option IconDataPdu → List ℕ
icon_or_nothing none = []
icon_or_nothing (some d) = icon_bytes d

unfoldable pub icon_field_bytes : ℕ → Option IconDataPdu → List ℕ
icon_field_bytes flags icon = if has_flag flags Field.icon then icon_or_nothing icon else []

unfoldable pub caps_payload : ServerCapsPdu → List ℕ
caps_payload caps =
    bytes_of_u16 caps.version
    ++ (string_bytes caps.app_list_provider_name ++ string_bytes caps.app_list_provider_unique_id)

-- The string fields of an update message, in wire order.
unfoldable pub update_strings : UpdateApplistPdu → List ℕ
update_strings u =
    field_bytes u.flags Field.id u.app_id
    ++ (field_bytes u.flags Field.group u.app_group
        ++ (field_bytes u.flags Field.execpath u.app_exec_path
            ++ (field_bytes u.flags Field.workingdir u.app_working_dir
                ++ field_bytes u.flags Field.desc u.app_desc)))

unfoldable pub update_applist_payload : UpdateApplistPdu → List ℕ
update_applist_payload u =
    bytes_of_u32 u.flags ++ (update_strings u ++ icon_field_bytes u.flags u.app_icon)

unfoldable pub delete_applist_payload : DeleteApplistPdu → List ℕ
delete_applist_payload d =
    bytes_of_u32 d.flags
    ++ (field_bytes d.flags Field.id d.app_id ++ field_bytes d.flags Field.group d.app_group)

unfoldable pub delete_applist_provider_payload : DeleteApplistProviderPdu → List ℕ
delete_applist_provider_payload d =
    bytes_of_u32 d.flags ++ field_bytes d.flags Field.provider d.app_list_provider_name

unfoldable pub associate_window_id_payload : AssociateWindowIdPdu → List ℕ
associate_window_id_payload a =
    bytes_of_u32 a.flags
    ++ (bytes_of_u32 a.app_window_id
        ++ (field_bytes a.flags Field.id a.app_id
            ++ (field_bytes a.flags Field.group a.app_group
                ++ (field_bytes a.flags Field.execpath a.app_exec_path
                    ++ field_bytes a.flags Field.desc a.app_desc))))

-- A message is the header, whose length counts the header too, and the payload.
unfoldable pub message : ℕ → List ℕ → List ℕ
message cmd_id payload =
    bytes_of_u32 cmd_id ++ (bytes_of_u32 (header_size + length payload) ++ payload)
