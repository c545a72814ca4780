-- ===== src/Server/Send.antt =====
-- The send half of rdpapplist/server/rdpapplist_main.c and the header writer of
-- rdpapplist/rdpapplist_common.c. Stream_Free and the log calls are left out.
pub mod Payload
pub mod Writes
pub mod Sizes
pub mod Filled
pub mod Exact
pub mod Refuse
use wslg.Common.{ℕ, ◌+◌, ◌*◌, ◌%◌, Option, none, some}
use wslg.Common.{ltb, if◌then◌else◌, has_flag, u32_mod}
use wslg.Protocol.{header_size, max_string_size}
use wslg.Protocol.Cmdid
use wslg.Protocol.Field
use wslg.Server.WinPr.{WinPr}
use wslg.Server.Pdu.{
  RailString, Header, ServerCapsPdu, IconDataPdu, UpdateApplistPdu, DeleteApplistPdu,
  DeleteApplistProviderPdu, AssociateWindowIdPdu,
}

-- The values of UINT that the server returns; `last_error` is a value of GetLastError.
pub data Rc : Type 0 where
  channel_rc_ok channel_rc_no_memory channel_rc_bad_proc : Rc
  error_invalid_data error_internal_error error_no_data : Rc
  last_error : ℕ → Rc

infixl 5 ◌>>=◌
abbrev ◌>>=◌ : Option ℕ → (ℕ → Option ℕ) → Option ℕ
none >>= f = none
some a >>= f = f a

-- `len += (2 + s.length)` under the flag of the field, or `none` for ERROR_INVALID_DATA.
pub add_string : ℕ → ℕ → RailString → ℕ → Option ℕ
add_string flags field s len =
    if has_flag flags field
    then (if ltb max_string_size s.len then none else some ((len + (2 + s.len)) % u32_mod))
    else some len

pub add_icon : ℕ → Option IconDataPdu → ℕ → Option ℕ
add_icon flags icon len =
    if has_flag flags Field.icon
    then (elim icon [
      | none ↦ none
      | some d ↦ some ((len + (7 * 4 + d.icon_bits_length) % u32_mod) % u32_mod)
    ])
    else some len

pub caps_len : ServerCapsPdu → Option ℕ
caps_len caps =
    if ltb max_string_size caps.app_list_provider_name.len
    then none
    else some
        (2 + (2 + caps.app_list_provider_name.len) + (2 + caps.app_list_provider_unique_id.len))

pub update_applist_len : UpdateApplistPdu → Option ℕ
update_applist_len u = do
  len ← add_string u.flags Field.id u.app_id 4
  len ← add_string u.flags Field.group u.app_group len
  len ← add_string u.flags Field.execpath u.app_exec_path len
  len ← add_string u.flags Field.workingdir u.app_working_dir len
  len ← add_string u.flags Field.desc u.app_desc len
  add_icon u.flags u.app_icon len

pub delete_applist_len : DeleteApplistPdu → Option ℕ
delete_applist_len d = do
  len ← add_string d.flags Field.id d.app_id 4
  add_string d.flags Field.group d.app_group len

pub delete_applist_provider_len : DeleteApplistProviderPdu → Option ℕ
delete_applist_provider_len d = add_string d.flags Field.provider d.app_list_provider_name 4

pub associate_window_id_len : AssociateWindowIdPdu → Option ℕ
associate_window_id_len a = do
  len ← add_string a.flags Field.id a.app_id 8
  len ← add_string a.flags Field.group a.app_group len
  len ← add_string a.flags Field.execpath a.app_exec_path len
  add_string a.flags Field.desc a.app_desc len

module _ (w : WinPr) where
  open w use {
    WStream, Channel, stream_new, stream_written, stream_write_uint16, stream_write_uint32,
    stream_write, virtual_channel_write,
  }

  pub write_header : Header → WStream → WStream
  write_header h s = stream_write_uint32 (stream_write_uint32 s h.cmd_id) h.len

  -- The UINT32 sum RDPAPPLIST_HEADER_SIZE + length is the size asked for and the header's length.
  pub single_packet_new : ℕ → ℕ → Option WStream
  single_packet_new cmd_id len =
      let total = (header_size + len) % u32_mod in
      elim (stream_new total) [
        | none ↦ none
        | some s ↦ some (write_header (record { cmd_id = cmd_id; len = total }) s)
      ]

  pub packet_send : Channel → WStream → Rc × Channel
  packet_send ch s =
      let (ch', written) = virtual_channel_write ch (stream_written s) in
      (elim written [ none ↦ error_internal_error | some n ↦ channel_rc_ok ], ch')

  pub write_string : RailString → WStream → WStream
  write_string x s = stream_write (stream_write_uint16 s x.len) x.string x.len

  pub write_string_field : ℕ → ℕ → RailString → WStream → WStream
  write_string_field flags field x s = if has_flag flags field then write_string x s else s

  pub write_icon : IconDataPdu → WStream → WStream
  write_icon d s =
      let s = stream_write_uint32 s d.flags in
      let s = stream_write_uint32 s d.icon_width in
      let s = stream_write_uint32 s d.icon_height in
      let s = stream_write_uint32 s d.icon_stride in
      let s = stream_write_uint32 s d.icon_bpp in
      let s = stream_write_uint32 s d.icon_format in
      let s = stream_write_uint32 s d.icon_bits_length in
      stream_write s d.icon_bits d.icon_bits_length

  -- At a null pointer the function has already returned.
  pub write_icon_field : ℕ → Option IconDataPdu → WStream → WStream
  write_icon_field flags icon s =
      if has_flag flags Field.icon then (elim icon [ none ↦ s | some d ↦ write_icon d s ]) else s

  pub caps_body : ServerCapsPdu → WStream → WStream
  caps_body caps s =
      let s = stream_write_uint16 s caps.version in
      let s = write_string caps.app_list_provider_name s in
      write_string caps.app_list_provider_unique_id s

  pub update_applist_body : UpdateApplistPdu → WStream → WStream
  update_applist_body u s =
      let s = stream_write_uint32 s u.flags in
      let s = write_string_field u.flags Field.id u.app_id s in
      let s = write_string_field u.flags Field.group u.app_group s in
      let s = write_string_field u.flags Field.execpath u.app_exec_path s in
      let s = write_string_field u.flags Field.workingdir u.app_working_dir s in
      let s = write_string_field u.flags Field.desc u.app_desc s in
      write_icon_field u.flags u.app_icon s

  pub delete_applist_body : DeleteApplistPdu → WStream → WStream
  delete_applist_body d s =
      let s = stream_write_uint32 s d.flags in
      let s = write_string_field d.flags Field.id d.app_id s in
      write_string_field d.flags Field.group d.app_group s

  pub delete_applist_provider_body : DeleteApplistProviderPdu → WStream → WStream
  delete_applist_provider_body d s =
      let s = stream_write_uint32 s d.flags in
      write_string_field d.flags Field.provider d.app_list_provider_name s

  pub associate_window_id_body : AssociateWindowIdPdu → WStream → WStream
  associate_window_id_body a s =
      let s = stream_write_uint32 s a.flags in
      let s = stream_write_uint32 s a.app_window_id in
      let s = write_string_field a.flags Field.id a.app_id s in
      let s = write_string_field a.flags Field.group a.app_group s in
      let s = write_string_field a.flags Field.execpath a.app_exec_path s in
      write_string_field a.flags Field.desc a.app_desc s

  -- What the five send functions do with the length that they computed, or with its refusal.
  pub send_message : Channel → ℕ → Option ℕ → (WStream → WStream) → Rc × Channel
  send_message ch cmd_id none body = (error_invalid_data, ch)
  send_message ch cmd_id (some len) body = elim (single_packet_new cmd_id len) [
    | none ↦ (channel_rc_no_memory, ch)
    | some s ↦ packet_send ch (body s)
  ]

  pub send_caps : Channel → ServerCapsPdu → Rc × Channel
  unfolding send_message
  send_caps ch caps = send_message ch Cmdid.caps (caps_len caps) (caps_body caps)

  pub send_update_applist : Channel → UpdateApplistPdu → Rc × Channel
  unfolding send_message
  send_update_applist ch u =
      send_message ch Cmdid.update_applist (update_applist_len u) (update_applist_body u)

  pub send_delete_applist : Channel → DeleteApplistPdu → Rc × Channel
  unfolding send_message
  send_delete_applist ch d =
      send_message ch Cmdid.delete_applist (delete_applist_len d) (delete_applist_body d)

  pub send_delete_applist_provider : Channel → DeleteApplistProviderPdu → Rc × Channel
  unfolding send_message
  send_delete_applist_provider ch d =
      send_message ch Cmdid.delete_applist_provider (delete_applist_provider_len d)
        (delete_applist_provider_body d)

  pub send_associate_window_id : Channel → AssociateWindowIdPdu → Rc × Channel
  unfolding send_message
  send_associate_window_id ch a =
      send_message ch Cmdid.associate_window_id (associate_window_id_len a)
        (associate_window_id_body a)
