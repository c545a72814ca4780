-- ===== src/Examples/Replies.antt =====
-- The plugin's reply at the server: a stream is its bytes and a position, and the user of the server
-- keeps the capabilities that it is told of.
use wslg.Common.{
  ℕ, ◌+◌, ◌≡◌, refl, List, [], ◌∷◌, true, none, some, arith, length, take, drop, replicate,
  u16_of_bytes, u32_of_bytes,
}
use wslg.Protocol.{channel_version}
use wslg.Server.Send.{channel_rc_ok}
use wslg.Server.Input.{Input, InputLaws, ClientCapsPdu, got}
use wslg.Server.Receive.{call_client_caps, receive_loop}
use wslg.Server.Receive.Caps.{caps_bytes}
use wslg.Server.Receive.Loop.{receive_loop-endless}
use wslg.Client.Callback.Caps.{reply_bytes}
use wslg.Wire.HandShake.{padded, reply-received}

pub record Cursor : Type 0 where
  pub bytes : List ℕ
  pub at : ℕ

abbrev pub take_u16 : List ℕ → ℕ
take_u16 [] = 0
take_u16 (a ∷ []) = 0
take_u16 (a ∷ b ∷ rest) = u16_of_bytes a b

abbrev pub take_u32 : List ℕ → ℕ
take_u32 (a ∷ b ∷ c ∷ d ∷ rest) = u32_of_bytes a b c d
take_u32 short = 0

abbrev pub input : Input
input = record {
  RStream = Cursor;
  contents = λ s. s.bytes;
  position = λ s. s.at;
  set_position = λ n s. record s { at = n };
  remaining_length = λ s. length (drop s.at s.bytes);
  read_uint16 = λ s. (take_u16 (drop s.at s.bytes), record s { at = s.at + 2 });
  read_uint32 = λ s. (take_u32 (drop s.at s.bytes), record s { at = s.at + 4 });
  read = λ n s. (take n (drop s.at s.bytes), record s { at = s.at + n });
  World = List ClientCapsPdu;
  query_ready = λ w. got true;
  available = λ w. got 42;
  ensure_capacity = λ n w. true;
  read_channel = λ s w. some (s, w);
  application_list_client_caps = some (λ pdu w. (pdu ∷ w, channel_rc_ok));
}

input-InputLaws : InputLaws input
input-InputLaws = record {
  set_position_lem = λ n s. (refl, refl);
  remaining_length_lem = λ s. refl;
  read_uint16_lem = λ s a b rest e. (rw e, refl, refl);
  read_uint32_lem = λ s a b c d rest e. (rw e, refl, refl);
  read_lem = λ n s h. (refl, refl, refl);
}

-- "en"
abbrev en : List ℕ
en = 101 ∷ 110 ∷ []

abbrev pub reply_stream : Cursor
reply_stream = record { bytes = reply_bytes en; at = 0 }

en_called :
    call_client_caps input (record { version = channel_version; client_language_id = padded en }) []
    ≡ (record { version = channel_version; client_language_id = padded en } ∷ [], channel_rc_ok)
unfolding call_client_caps
en_called = refl

reply-received_example :
    (s' : Cursor) × (receive_loop input 1 reply_stream []
      ≡ some (
        channel_rc_ok,
        s',
        record { version = channel_version; client_language_id = padded en } ∷ [],
      ))
reply-received_example =
    reply-received input input-InputLaws en 0 reply_stream []
      (record { version = channel_version; client_language_id = padded en } ∷ []) (omega arith) refl
      refl en_called

-- A caps message whose header says that it is 0 bytes long.
abbrev endless_stream : Cursor
endless_stream = record { bytes = caps_bytes 0 4 (replicate 32 65) []; at = 0 }

content :
    (pdu : ClientCapsPdu) (w : List ClientCapsPdu)
    → (call_client_caps input pdu w).1 ≡ channel_rc_ok
unfolding call_client_caps
content pdu w = refl

receive_loop-endless_example : receive_loop input 1000 endless_stream [] ≡ none
receive_loop-endless_example =
    receive_loop-endless input input-InputLaws 4 (replicate 32 65) [] (omega arith) refl content
      1000 endless_stream [] refl
