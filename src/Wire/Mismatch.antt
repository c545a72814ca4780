-- ===== src/Wire/Mismatch.antt =====
-- Where the two ends disagree: the server accepts strings of up to 512 bytes, and the client's
-- arrays hold 510 bytes and a terminator.
use wslg.Common.{ℕ, ◌<◌, ◌≡◌, List, ◌++◌, Bool, true, arith, IsU16}
use wslg.Common.{append_assoc, u16_of_bytes-of_u16}
use wslg.Protocol.Cmdid
use wslg.Server.WinPr.{WinPr, Laws}
use wslg.Server.Pdu.{RailString, ServerCapsPdu}
use wslg.Server.Send.{send_caps}
use wslg.Server.Send.Payload.{string_bytes, caps_payload, message}
use wslg.Server.Send.Sizes.Short.{CapsFit}
use wslg.Server.Send.Exact.{send_caps-sent}
use wslg.Server.Send.Filled.{sent}
use wslg.Client.Hresult.{e_fail}
use wslg.Client.Pdu.{WString, ServerCaps}
use wslg.Client.Reader.{error_read, read_uint16, read_chars, read_string, read_string_at}
use wslg.Client.Read.{read_app_list_server_caps}

-- No reader takes a string of more than 510 bytes, whatever follows.
pub read_string_long :
    (required : Bool) (s : WString) (x : RailString) (rest : List ℕ)
    → IsU16 x.len
    → 510 < x.len
    → read_string required s (string_bytes x ++ rest) ≡ error_read (record s { len = x.len })
unfolding read_string read_uint16 read_chars
read_string_long required s x rest h long = rw (u16_of_bytes-of_u16 x.len h) (ground arith)

-- A provider name of 511 or 512 bytes is sent by the server as a well-formed caps message, or
-- refused for lack of memory alone, while the client fails to read its payload, whatever follows
-- it.
pub caps_name_too_long_for_client :
    (w : WinPr) (laws : Laws w) (ch : w.Channel) (c : ServerCaps) (caps : ServerCapsPdu)
    (rest : List ℕ)
    → CapsFit caps
    → IsU16 caps.version
    → 510 < caps.app_list_provider_name.len
    → (send_caps w ch caps ≡ sent w ch (message Cmdid.caps (caps_payload caps)))
      × ((read_app_list_server_caps c (caps_payload caps ++ rest)).0 ≡ e_fail)
unfolding read_app_list_server_caps caps_payload read_uint16 read_string_at
caps_name_too_long_for_client w laws ch c caps rest fit version long = (
  send_caps-sent w laws ch caps fit,
  rw (append_assoc (string_bytes caps.app_list_provider_name) _ rest) (
      ground (
        arith,
        read_string_long true c.app_list_provider_name caps.app_list_provider_name
            (string_bytes caps.app_list_provider_unique_id ++ rest),
        fit.name_fits,
      )),
)
