-- ===== src/Server/Receive.antt =====
-- The receiving half of rdpapplist/server/rdpapplist_main.c, and the header reader of
-- rdpapplist/rdpapplist_common.c. Log calls are left out.
pub mod Caps
pub mod Loop
use wslg.Common.{ℕ, zero, suc, ◌+◌, Bool, true, false, not, Option, none, some}
use wslg.Common.{ltb, if◌then◌else◌, ◌==◌, length}
use wslg.Protocol.{lang_size}
use wslg.Protocol.Cmdid
use wslg.Server.Pdu.{Header}
use wslg.Server.Send.{
  Rc, channel_rc_ok, channel_rc_no_memory, channel_rc_bad_proc, error_invalid_data,
  error_internal_error, error_no_data, last_error,
}
use wslg.Server.Input.{Input, ClientCapsPdu, Queried, no_data, failed, got}

abbrev pub is_ok : Rc → Bool
is_ok channel_rc_ok = true
is_ok channel_rc_no_memory = false
is_ok channel_rc_bad_proc = false
is_ok error_invalid_data = false
is_ok error_internal_error = false
is_ok error_no_data = false
is_ok (last_error n) = false

module _ (i : Input) where
  open i use {RStream, World}

  -- `none` for ERROR_INVALID_DATA.
  pub read_header : RStream → Option (Header × RStream)
  read_header s =
      let (cmd_id, s₁) = i.read_uint32 s in
      let (len, s₂) = i.read_uint32 s₁ in
      if ltb (i.remaining_length s) 8
      then none
      else some (record { cmd_id = cmd_id; len = len }, s₂)

  -- IFCALLRET: no callback, no error.
  unfoldable pub call_client_caps : ClientCapsPdu → World → World × Rc
  call_client_caps pdu w = elim i.application_list_client_caps [
    | none ↦ (w, channel_rc_ok)
    | some f ↦ f pdu w
  ]

  pub recv_caps_pdu : RStream → World → Rc × RStream × World
  unfolding call_client_caps
  recv_caps_pdu s w =
      let (version, s₁) = i.read_uint16 s in
      let (language, s₂) = i.read lang_size s₁ in
      let (w', rc) =
        call_client_caps (record { version = version; client_language_id = language }) w in
      if ltb (i.remaining_length s) 2
      then (error_invalid_data, s, w)
      else if ltb (i.remaining_length s₁) lang_size
      then (error_invalid_data, s₁, w)
      else (rc, s₂, w')

  -- The position after the message is forced to where the header says that it ends.
  pub end_pdu : ℕ → RStream → RStream
  end_pdu end s = if i.position s == end then s else i.set_position end s

  pub receive_pdu : RStream → World → Rc × RStream × World
  unfolding read_header recv_caps_pdu end_pdu
  receive_pdu s w = elim (read_header s) [
    | none ↦ (error_invalid_data, s, w)
    | some (header, s') ↦
        let (rc, s'', w') : Rc × RStream × World =
          if header.cmd_id == Cmdid.caps
          then recv_caps_pdu s' w
          else (channel_rc_bad_proc, s', w) in
        (rc, end_pdu (i.position s + header.len) s'', w')
  ]

  -- `while (Stream_GetPosition(s) < Stream_Length(s))`, `fuel` rounds at most; `none` if they are not
  -- enough.
  pub receive_loop : ℕ → RStream → World → Option (Rc × RStream × World)
  receive_loop zero s w =
      if ltb (i.position s) (length (i.contents s)) then none else some (channel_rc_ok, s, w)
  receive_loop (suc fuel) s w =
      let (rc, s', w') = receive_pdu s w in
      let rest = receive_loop fuel s' w' in
      if ltb (i.position s) (length (i.contents s))
      then (if is_ok rc then rest else some (rc, s', w'))
      else some (channel_rc_ok, s, w)

  -- What handle_messages does once the channel is ready.
  unfoldable pub read_messages : ℕ → RStream → World → Option (Rc × RStream × World)
  read_messages fuel s w = elim (i.available w) [
    | no_data ↦ some (error_no_data, s, w)
    | failed ↦ some (error_internal_error, s, w)
    | got n ↦
        if n == 0
        then some (channel_rc_ok, s, w)
        else if not (i.ensure_capacity n w)
        then some (channel_rc_no_memory, s, w)
        else (elim (i.read_channel s w) [
          | none ↦ some (error_internal_error, s, w)
          | some (s', w') ↦ receive_loop fuel s' w'
        ])
  ]

  -- The flag is priv->isReady, before and after.
  unfoldable pub handle_messages : ℕ → Bool → RStream → World → Option (Rc × Bool × RStream × World)
  handle_messages fuel is_ready s w = elim (if is_ready then got true else i.query_ready w) [
    | no_data ↦ some (error_no_data, is_ready, s, w)
    | failed ↦ some (error_internal_error, is_ready, s, w)
    | got false ↦ some (channel_rc_ok, false, s, w)
    | got true ↦ elim (read_messages fuel (i.set_position 0 s) w) [
      | none ↦ none
      | some (rc, s', w') ↦ some (rc, true, s', w')
    ]
  ]
