-- ===== src/Server/Send/Filled.antt =====
-- The body of each message fills a stream of the length that was computed for it.
use wslg.Common.{ℕ, ◌+◌, ◌%◌, ◌≡◌, ap, ◌∙◌, List, ◌++◌}
use wslg.Common.{none, some, arith, length, u32_mod}
use wslg.Common.{bytes_of_u32, Option-cases, inl, inr, IsU32}
use wslg.Protocol.{header_size}
use wslg.Protocol.Field
use wslg.Server.WinPr.{WinPr, Laws}
use wslg.Server.Pdu.{
  RailString, Header, ServerCapsPdu, UpdateApplistPdu, DeleteApplistPdu, DeleteApplistProviderPdu,
  AssociateWindowIdPdu,
}
use wslg.Server.Send.{
  Rc, channel_rc_no_memory, write_header, write_string_field, single_packet_new, packet_send,
  send_message, caps_body, update_applist_body, delete_applist_body, delete_applist_provider_body,
  associate_window_id_body,
}
use wslg.Server.Send.Payload.{
  caps_payload, update_strings, update_applist_payload, delete_applist_payload,
  delete_applist_provider_payload, associate_window_id_payload, message, field_bytes,
}
use wslg.Server.Send.Writes.{
  Writes, Writes-then, Writes-uint16, Writes-uint32, Writes-string, Writes-string_field,
  Writes-icon_field,
}
use wslg.Server.Send.Sizes.{Fits, StringsFit, IsSendable}
use wslg.Server.Send.Sizes.Short.{CapsFit, DeleteFits, AssociateFits}

-- What the caller and the channel see if `bytes` goes out as one write: no more than an error if
-- there is no memory for a stream of just that size.
unfoldable pub sent : (w : WinPr) → w.Channel → List ℕ → Rc × w.Channel
unfolding packet_send
sent w ch bytes = elim (w.stream_new (length bytes)) [
  | none ↦ (channel_rc_no_memory, ch)
  | some s ↦
      let (ch', written) = w.virtual_channel_write ch bytes in
      (elim written [ none ↦ Rc.error_internal_error | some n ↦ Rc.channel_rc_ok ], ch')
]

length-message :
    (cmd_id : ℕ) (payload : List ℕ) → length (message cmd_id payload) ≡ 8 + length payload
unfolding message
length-message cmd_id payload = omega arith

module _ (w : WinPr) (laws : Laws w) where
  Writes-header :
      (h : Header) → Writes w (write_header w h) (bytes_of_u32 h.cmd_id ++ bytes_of_u32 h.len)
  unfolding write_header
  Writes-header h =
      Writes-then w laws _ _ _ _ (Writes-uint32 w laws h.cmd_id) (Writes-uint32 w laws h.len)

  -- The header and the body fill a fresh stream of the message's length with the message.
  filled :
      (cmd_id : ℕ) (payload : List ℕ) (body : w.WStream → w.WStream) (s : w.WStream)
      → Writes w body payload
      → w.stream_new (length (message cmd_id payload)) ≡ some s
      → w.stream_written (
          body
            (write_header w (record { cmd_id = cmd_id; len = length (message cmd_id payload) }) s))
        ≡ message cmd_id payload
  unfolding message
  filled cmd_id payload body s writes new =
      let (capacity, empty) = laws.stream_new_empty _ s new in
      let h : Header = record { cmd_id = cmd_id; len = length (message cmd_id payload) } in
      let whole =
        Writes-then w laws (write_header w h) body (bytes_of_u32 cmd_id ++ bytes_of_u32 h.len)
          payload (Writes-header h) writes in
      let room = length-message cmd_id payload in
      (whole s (omega (arith, ap length empty))).0 ∙ rw (empty, room)

  pub send_message-sent :
      (ch : w.Channel) (cmd_id : ℕ) (payload : List ℕ) (body : w.WStream → w.WStream)
      → IsU32 (header_size + length payload)
      → Writes w body payload
      → send_message w ch cmd_id (some (length payload)) body ≡ sent w ch (message cmd_id payload)
  unfolding send_message single_packet_new sent
  send_message-sent ch cmd_id payload body small writes =
      let total : (header_size + length payload) % u32_mod ≡ length (message cmd_id payload) =
        omega (arith, length-message cmd_id payload) in
      elim (Option-cases (w.stream_new (length (message cmd_id payload)))) [
        | inl e ↦ rw (send_message, single_packet_new, sent, total, e)
        | inr (s, e) ↦
            rw (send_message, single_packet_new, sent, total, e)
              (rw (packet_send, total, filled cmd_id payload body s writes e))
      ]

  pub Writes-caps_body :
      (caps : ServerCapsPdu) → CapsFit caps → Writes w (caps_body w caps) (caps_payload caps)
  unfolding caps_body caps_payload
  Writes-caps_body caps fit = Writes-then w laws _ _ _ _ (Writes-uint16 w laws caps.version) (
      Writes-then w laws _ _ _ _ (Writes-string w laws caps.app_list_provider_name fit.name_stored)
        (Writes-string w laws caps.app_list_provider_unique_id fit.unique_id_stored))

  Writes-field :
      (flags field : ℕ) (x : RailString)
      → Fits flags field x
      → Writes w (write_string_field w flags field x) (field_bytes flags field x)
  Writes-field flags field x fit = Writes-string_field w laws flags field x (λ on. (fit on).1)

  Writes-update_strings :
      (u : UpdateApplistPdu)
      → StringsFit u
      → Writes w
          (λ s. write_string_field w u.flags Field.desc u.app_desc (
            write_string_field w u.flags Field.workingdir u.app_working_dir (
              write_string_field w u.flags Field.execpath u.app_exec_path (
                write_string_field w u.flags Field.group u.app_group
                  (write_string_field w u.flags Field.id u.app_id s)))))
          (update_strings u)
  unfolding update_strings
  Writes-update_strings u fit =
      Writes-then w laws _ _ _ _ (Writes-field u.flags Field.id u.app_id fit.id_fits) (
        Writes-then w laws _ _ _ _ (Writes-field u.flags Field.group u.app_group fit.group_fits) (
          Writes-then w laws _ _ _ _
            (Writes-field u.flags Field.execpath u.app_exec_path fit.execpath_fits)
            (Writes-then w laws _ _ _ _
              (Writes-field u.flags Field.workingdir u.app_working_dir fit.workingdir_fits)
              (Writes-field u.flags Field.desc u.app_desc fit.desc_fits))))

  pub Writes-update_applist_body :
      (u : UpdateApplistPdu)
      → IsSendable u
      → Writes w (update_applist_body w u) (update_applist_payload u)
  unfolding update_applist_body update_applist_payload
  Writes-update_applist_body u fit = Writes-then w laws _ _ _ _ (Writes-uint32 w laws u.flags) (
      Writes-then w laws _ _ _ _ (Writes-update_strings u fit.strings) (
        Writes-icon_field w laws u.flags u.app_icon
          (λ on d e. let (d', e', stored) = fit.icon on in ground arith)))

  pub Writes-delete_applist_body :
      (d : DeleteApplistPdu)
      → DeleteFits d
      → Writes w (delete_applist_body w d) (delete_applist_payload d)
  unfolding delete_applist_body delete_applist_payload
  Writes-delete_applist_body d fit = Writes-then w laws _ _ _ _ (Writes-uint32 w laws d.flags) (
      Writes-then w laws _ _ _ _ (Writes-field d.flags Field.id d.app_id fit.id_fits)
        (Writes-field d.flags Field.group d.app_group fit.group_fits))

  pub Writes-delete_applist_provider_body :
      (d : DeleteApplistProviderPdu)
      → Fits d.flags Field.provider d.app_list_provider_name
      → Writes w (delete_applist_provider_body w d) (delete_applist_provider_payload d)
  unfolding delete_applist_provider_body delete_applist_provider_payload
  Writes-delete_applist_provider_body d fit =
      Writes-then w laws _ _ _ _ (Writes-uint32 w laws d.flags)
        (Writes-field d.flags Field.provider d.app_list_provider_name fit)

  pub Writes-associate_window_id_body :
      (a : AssociateWindowIdPdu)
      → AssociateFits a
      → Writes w (associate_window_id_body w a) (associate_window_id_payload a)
  unfolding associate_window_id_body associate_window_id_payload
  Writes-associate_window_id_body a fit =
      Writes-then w laws _ _ _ _ (Writes-uint32 w laws a.flags) (
        Writes-then w laws _ _ _ _ (Writes-uint32 w laws a.app_window_id) (
          Writes-then w laws _ _ _ _ (Writes-field a.flags Field.id a.app_id fit.id_fits) (
            Writes-then w laws _ _ _ _ (Writes-field a.flags Field.group a.app_group fit.group_fits)
              (Writes-then w laws _ _ _ _
                (Writes-field a.flags Field.execpath a.app_exec_path fit.execpath_fits)
                (Writes-field a.flags Field.desc a.app_desc fit.desc_fits)))))
