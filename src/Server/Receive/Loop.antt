-- ===== src/Server/Receive/Loop.antt =====
-- The receive loop on caps messages.
use wslg.Common.{ℕ, zero, suc, ◌+◌, ◌≤◌, ◌<◌, ◌≡◌, refl, ap, ◌∙◌, List, none, some, arith}
use wslg.Common.{lt→ltb, le→ltb, length, length-drop, drop, IsU16, IsU32}
use wslg.Protocol.{lang_size}
use wslg.Server.Send.{Rc, channel_rc_ok}
use wslg.Server.Input.{Input, InputLaws, ClientCapsPdu}
use wslg.Server.Receive.{call_client_caps, receive_loop}
use wslg.Server.Receive.Caps.{caps_bytes, receive_pdu_at}

module _ (i : Input) (laws : InputLaws i) (len version : ℕ) (language rest : List ℕ)
    (hl : IsU32 len) (hv : IsU16 version) (size : length language ≡ lang_size) where
  open i use {RStream}

  -- The position is within a stream that has a message left.
  within :
      (s : RStream)
      → drop (i.position s) (i.contents s) ≡ caps_bytes len version language rest
      → i.position s < length (i.contents s)
  within s bytes = omega (arith, length-drop (i.position s) (i.contents s), ap length bytes)

  -- One round on a message whose callback is content.
  pub receive_loop-round :
      (fuel : ℕ) (s : RStream) (w w' : i.World)
      → drop (i.position s) (i.contents s) ≡ caps_bytes len version language rest
      → call_client_caps i (record { version = version; client_language_id = language }) w
        ≡ (w', channel_rc_ok)
      → (s' : RStream) × (receive_loop i (suc fuel) s w ≡ receive_loop i fuel s' w')
        × (i.position s' ≡ i.position s + len)
        × (i.contents s' ≡ i.contents s)
  unfolding receive_loop
  receive_loop-round fuel s w w' bytes called =
      let (s', received, position, contents) =
        receive_pdu_at i laws len version language rest hl hv size s w bytes in
      (
        s',
        rw (receive_loop, lt→ltb _ _ (within s bytes), received, called) refl,
        position,
        contents,
      )

pub receive_loop-over :
    (i : Input) (fuel : ℕ) (s : i.RStream) (w : i.World)
    → length (i.contents s) ≤ i.position s
    → receive_loop i fuel s w ≡ some (channel_rc_ok, s, w)
unfolding receive_loop
receive_loop-over i zero s w h = rw (le→ltb _ _ h)
receive_loop-over i (suc fuel) s w h = rw (receive_loop, le→ltb _ _ h) refl

-- At a caps message whose header has length 0, with the version and the language after it, the
-- receive loop of the server never ends while the callback is content: no number of rounds is
-- enough.
pub receive_loop-endless :
    (i : Input) (laws : InputLaws i) (version : ℕ) (language rest : List ℕ)
    → IsU16 version
    → length language ≡ lang_size
    → ((pdu : ClientCapsPdu) (w : i.World) → (call_client_caps i pdu w).1 ≡ channel_rc_ok)
    → (fuel : ℕ) (s : i.RStream) (w : i.World)
    → drop (i.position s) (i.contents s) ≡ caps_bytes 0 version language rest
    → receive_loop i fuel s w ≡ none
unfolding receive_loop
receive_loop-endless i laws version language rest hv size content zero s w bytes =
    rw (lt→ltb _ _ (within i laws 0 version language rest (omega arith) hv size s bytes))
receive_loop-endless i laws version language rest hv size content (suc fuel) s w bytes =
    let pdu : ClientCapsPdu = record { version = version; client_language_id = language } in
    let w' = (call_client_caps i pdu w).0 in
    let (s', round, position, contents) =
      receive_loop-round i laws 0 version language rest (omega arith) hv size fuel s w w' bytes
        (ap (λ (rc : Rc). (w', rc)) (content pdu w)) in
    let still : i.position s' ≡ i.position s = omega (arith, position) in
    round
    ∙ receive_loop-endless i laws version language rest hv size content fuel s' w'
        (rw (still, contents) bytes)
