-- ===== src/Wire/HandShake.antt =====
-- The plugin's reply to a caps message, as the server receives it.
use wslg.Common.{ℕ, suc, ◌-◌, ◌≤◌, ◌<◌, ◌≡◌, sym, ap, ◌∙◌, List, [], ◌++◌, append-nil, some, arith}
use wslg.Common.{length, length-append, length-replicate, drop, replicate}
use wslg.Protocol.{channel_version, lang_size}
use wslg.Common.{bytes_of_u16, bytes_of_u32}
use wslg.Protocol.Cmdid
use wslg.Server.Send.{channel_rc_ok}
use wslg.Server.Input.{Input, InputLaws}
use wslg.Server.Receive.{call_client_caps, receive_loop}
use wslg.Server.Receive.Caps.{caps_bytes}
use wslg.Server.Receive.Loop.{receive_loop-round, receive_loop-over}
use wslg.Client.Callback.Caps.{reply_bytes}

-- The language in its array of 32 bytes.
abbrev pub padded : List ℕ → List ℕ
padded language = language ++ replicate (lang_size - length language) 0

length-padded : (language : List ℕ) → length language ≤ 32 → length (padded language) ≡ lang_size
length-padded language h = omega (
  arith,
  length-append language (replicate (lang_size - length language) 0),
  length-replicate {A = ℕ} (lang_size - length language) 0,
  h,
)

reply-caps_bytes :
    (language : List ℕ) → reply_bytes language ≡ caps_bytes 42 channel_version (padded language) []
unfolding reply_bytes
reply-caps_bytes language =
    let all : padded language ≡ padded language ++ [] = sym (append-nil (padded language)) in
    ap
      (λ (t : List ℕ).
        bytes_of_u32 Cmdid.caps ++ (bytes_of_u32 42 ++ (bytes_of_u16 channel_version ++ t)))
      all

-- The plugin's reply to a caps message, with a language of less than 32 bytes, as the whole of a
-- stream at position 0: if the callback of the server's user is content, the receive loop needs one
-- round, calls the callback once with version 4 and the language in its 32 bytes, and returns
-- CHANNEL_RC_OK.
pub reply-received :
    (i : Input) (laws : InputLaws i) (language : List ℕ) (fuel : ℕ) (s : i.RStream) (w w' : i.World)
    → length language < lang_size
    → i.position s ≡ 0
    → i.contents s ≡ reply_bytes language
    → call_client_caps i
        (record { version = channel_version; client_language_id = padded language })
        w
      ≡ (w', channel_rc_ok)
    → (s' : i.RStream) × (receive_loop i (suc fuel) s w ≡ some (channel_rc_ok, s', w'))
reply-received i laws language fuel s w w' short at_start whole called =
    let bytes : drop (i.position s) (i.contents s)
        ≡ caps_bytes 42 channel_version (padded language) [] =
      rw (at_start, whole) (reply-caps_bytes language) in
    let size = length-padded language (omega (arith, short)) in
    let (s', round, position, contents) =
      receive_loop-round i laws 42 channel_version (padded language) [] (omega arith) (omega arith)
        size fuel s w w' bytes called in
    let over : length (i.contents s') ≤ i.position s' = omega (
      arith,
      position,
      size,
      ap length contents,
      ap length whole,
      ap length (reply-caps_bytes language),
      length-append (padded language) [],
    ) in
    (s', round ∙ receive_loop-over i fuel s' w' over)
