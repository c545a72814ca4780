-- ===== src/Server/Send/Exact.antt =====
-- The five send functions put exactly one well-formed message on the channel.
use wslg.Common.{◌+◌, ◌≡◌}
use wslg.Common.{arith, length}
use wslg.Common.{IsU32}
use wslg.Protocol.{header_size}
use wslg.Protocol.Cmdid
use wslg.Protocol.Field
use wslg.Server.WinPr.{WinPr, Laws}
use wslg.Server.Pdu.{
  ServerCapsPdu, UpdateApplistPdu, DeleteApplistPdu, DeleteApplistProviderPdu, AssociateWindowIdPdu,
}
use wslg.Server.Send.{
  send_caps, send_update_applist, send_delete_applist, send_delete_applist_provider,
  send_associate_window_id,
}
use wslg.Server.Send.Payload.{
  caps_payload, update_applist_payload, delete_applist_payload, delete_applist_provider_payload,
  associate_window_id_payload, message,
}
use wslg.Server.Send.Sizes.{Fits, IsSendable, update_applist_len_lem}
use wslg.Server.Send.Sizes.Short.{
  CapsFit, DeleteFits, AssociateFits, caps_len_lem, delete_applist_len_lem,
  delete_applist_provider_len_lem, associate_window_id_len_lem,
}
use wslg.Server.Send.Filled.{
  sent, send_message-sent, Writes-caps_body, Writes-update_applist_body, Writes-delete_applist_body,
  Writes-delete_applist_provider_body, Writes-associate_window_id_body,
}

module _ (w : WinPr) (laws : Laws w) where
  -- Where every field that the flags name fits its buffer and its limit, an icon is there if its
  -- flag is on, and header and payload stay below 2 ^ 32 bytes, rdpapplist_send_update_applist puts
  -- one write on the channel: the message of the wire format, at a header length that is its own,
  -- in a stream of just that size; or the channel is untouched and the result is
  -- CHANNEL_RC_NO_MEMORY.
  pub send_update_applist-sent :
      (ch : w.Channel) (u : UpdateApplistPdu)
      → IsSendable u
      → IsU32 (header_size + length (update_applist_payload u))
      → send_update_applist w ch u
        ≡ sent w ch (message Cmdid.update_applist (update_applist_payload u))
  unfolding send_update_applist
  send_update_applist-sent ch u fit small =
      rw (update_applist_len_lem u fit (omega arith))
        (send_message-sent w laws ch _ _ _ small (Writes-update_applist_body w laws u fit))

  -- Where the name has at most 512 bytes and both strings lie within their buffers,
  -- rdpapplist_send_caps puts one write on the channel, the caps message of the wire format with its
  -- own length in the header, unless there is no memory for it.
  pub send_caps-sent :
      (ch : w.Channel) (caps : ServerCapsPdu)
      → CapsFit caps
      → send_caps w ch caps ≡ sent w ch (message Cmdid.caps (caps_payload caps))
  unfolding send_caps
  send_caps-sent ch caps fit =
      let (e, small) = caps_len_lem caps fit in
      rw e (send_message-sent w laws ch _ _ _ (omega arith) (Writes-caps_body w laws caps fit))

  -- Where each field that is on has at most 512 bytes and lies within its buffer,
  -- rdpapplist_send_delete_applist puts one write on the channel, the delete message of the wire
  -- format with its own length in the header, unless there is no memory for it.
  pub send_delete_applist-sent :
      (ch : w.Channel) (d : DeleteApplistPdu)
      → DeleteFits d
      → send_delete_applist w ch d
        ≡ sent w ch (message Cmdid.delete_applist (delete_applist_payload d))
  unfolding send_delete_applist
  send_delete_applist-sent ch d fit =
      let (e, small) = delete_applist_len_lem d fit in
      rw e
        (send_message-sent w laws ch _ _ _ (omega arith) (Writes-delete_applist_body w laws d fit))

  -- Where the provider name, if it is on, has at most 512 bytes and lies within its buffer,
  -- rdpapplist_send_delete_applist_provider puts one write on the channel, the delete-provider message
  -- of the wire format with its own length in the header, unless there is no memory for it.
  pub send_delete_applist_provider-sent :
      (ch : w.Channel) (d : DeleteApplistProviderPdu)
      → Fits d.flags Field.provider d.app_list_provider_name
      → send_delete_applist_provider w ch d
        ≡ sent w ch (message Cmdid.delete_applist_provider (delete_applist_provider_payload d))
  unfolding send_delete_applist_provider
  send_delete_applist_provider-sent ch d fit =
      let (e, small) = delete_applist_provider_len_lem d fit in
      rw e (
        send_message-sent w laws ch _ _ _ (omega arith)
          (Writes-delete_applist_provider_body w laws d fit))

  -- Where each field that is on has at most 512 bytes and lies within its buffer,
  -- rdpapplist_send_associate_window_id puts one write on the channel, the associate-window-id message
  -- of the wire format with its own length in the header, unless there is no memory for it.
  pub send_associate_window_id-sent :
      (ch : w.Channel) (a : AssociateWindowIdPdu)
      → AssociateFits a
      → send_associate_window_id w ch a
        ≡ sent w ch (message Cmdid.associate_window_id (associate_window_id_payload a))
  unfolding send_associate_window_id
  send_associate_window_id-sent ch a fit =
      let (e, small) = associate_window_id_len_lem a fit in
      rw e (
        send_message-sent w laws ch _ _ _ (omega arith)
          (Writes-associate_window_id_body w laws a fit))
