-- ===== src/Examples/Sending.antt =====
-- The server's send functions on the messages of the examples.
use wslg.Common.{◌+◌, ◌%◌, ◌≤◌, ◌≡◌, refl, ℕ, [], true, arith, some, u32_mod, has_flag}
use wslg.Protocol.{header_size}
use wslg.Protocol.Cmdid
use wslg.Protocol.Field
use wslg.Server.Pdu.{IconDataPdu, UpdateApplistPdu}
use wslg.Server.Send.{error_invalid_data, update_applist_len, send_update_applist}
use wslg.Server.Send.Payload.{update_applist_payload, message}
use wslg.Server.Send.Sizes.{StringsFit}
use wslg.Server.Send.Exact.{send_update_applist-sent}
use wslg.Server.Send.Filled.{sent}
use wslg.Server.Send.Refuse.{
  IsRefused, long_id, send_update_applist-refused, update_applist_len_wraps,
}
use wslg.Examples.Streams.{streams, streams-Laws}
use wslg.Examples.Messages.{icon, update, update-StringsFit, update-IsSendable, update-IsU32}

send_update_applist-sent_example :
    send_update_applist streams [] update
    ≡ sent streams [] (message Cmdid.update_applist (update_applist_payload update))
send_update_applist-sent_example =
    send_update_applist-sent streams streams-Laws [] update update-IsSendable update-IsU32

-- An application id of 600 bytes.
abbrev long_update : UpdateApplistPdu
long_update = record update { app_id = record { len = 600; string = [] } }

long_update-IsRefused : IsRefused long_update
unfolding has_flag
long_update-IsRefused = long_id (refl, omega arith)

send_update_applist-refused_example :
    send_update_applist streams [] long_update ≡ (error_invalid_data, [])
send_update_applist-refused_example =
    send_update_applist-refused streams [] long_update long_update-IsRefused

-- Icon bits of nearly 4 GiB, whose length the sums take past 2 ^ 32.
abbrev huge_icon : IconDataPdu
huge_icon = record icon { icon_bits_length = 0xffff_fff0 }

abbrev huge_update : UpdateApplistPdu
huge_update = record update { app_icon = some huge_icon }

huge_update-StringsFit : StringsFit huge_update
huge_update-StringsFit = record {
  id_fits = update-StringsFit.id_fits;
  group_fits = update-StringsFit.group_fits;
  execpath_fits = update-StringsFit.execpath_fits;
  workingdir_fits = update-StringsFit.workingdir_fits;
  desc_fits = update-StringsFit.desc_fits;
}

has_icon : has_flag huge_update.flags Field.icon ≡ true
unfolding has_flag
has_icon = refl

update_applist_len_wraps_example :
    (len : ℕ) × (update_applist_len huge_update ≡ some len) × ((header_size + len) % u32_mod ≤ 2610)
update_applist_len_wraps_example =
    update_applist_len_wraps huge_update huge_icon huge_update-StringsFit has_icon refl
      (omega arith) (omega arith)
