-- ===== src/Server/Input.antt =====
-- What the receiving half of the server uses of WinPR: input streams, the state of the channel, and
-- the callback of the server's user. `Input` holds the operations, and `InputLaws` what WinPR
-- documents of the streams.
use wslg.Common.{ℕ, ◌+◌, ◌≤◌, ◌≡◌, List, ◌∷◌, Bool, Option}
use wslg.Common.{length, take, drop, u16_of_bytes, u32_of_bytes}
use wslg.Server.Send.{Rc}

-- RDPAPPLIST_CLIENT_CAPS_PDU
pub record ClientCapsPdu : Type 0 where
  pub version : ℕ
  pub client_language_id : List ℕ

-- The result of a call that tells ERROR_NO_DATA from other errors.
pub data Queried (A : Type 0) : Type 0 where
  no_data failed : Queried A
  got : A → Queried A

pub record Input : Type 1 where
  pub RStream : Type 0
  -- Stream_Buffer up to Stream_Length, and Stream_GetPosition.
  pub contents : RStream → List ℕ
  pub position : RStream → ℕ
  pub set_position : ℕ → RStream → RStream
  pub remaining_length : RStream → ℕ
  pub read_uint16 : RStream → ℕ × RStream
  pub read_uint32 : RStream → ℕ × RStream
  pub read : ℕ → RStream → List ℕ × RStream
  -- The rest of the process.
  pub World : Type 0
  -- WTSVirtualChannelQuery(WTSVirtualChannelReady)
  pub query_ready : World → Queried Bool
  -- WTSVirtualChannelRead with no buffer: how much there is.
  pub available : World → Queried ℕ
  -- Stream_EnsureRemainingCapacity
  pub ensure_capacity : ℕ → World → Bool
  -- WTSVirtualChannelRead into the stream, with its length set and its position at 0.
  pub read_channel : RStream → World → Option (RStream × World)
  -- context->ApplicationListClientCaps, which may be null.
  pub application_list_client_caps : Option (ClientCapsPdu → World → World × Rc)

pub record InputLaws (i : Input) : Type 0 where
  pub set_position_lem :
      (n : ℕ) (s : i.RStream)
      → (i.position (i.set_position n s) ≡ n) × (i.contents (i.set_position n s) ≡ i.contents s)
  pub remaining_length_lem :
      (s : i.RStream) → i.remaining_length s ≡ length (drop (i.position s) (i.contents s))
  pub read_uint16_lem :
      (s : i.RStream) (a b : ℕ) (rest : List ℕ)
      → drop (i.position s) (i.contents s) ≡ a ∷ b ∷ rest
      → ((i.read_uint16 s).0 ≡ u16_of_bytes a b)
        × (i.position (i.read_uint16 s).1 ≡ i.position s + 2)
        × (i.contents (i.read_uint16 s).1 ≡ i.contents s)
  pub read_uint32_lem :
      (s : i.RStream) (a b c d : ℕ) (rest : List ℕ)
      → drop (i.position s) (i.contents s) ≡ a ∷ b ∷ c ∷ d ∷ rest
      → ((i.read_uint32 s).0 ≡ u32_of_bytes a b c d)
        × (i.position (i.read_uint32 s).1 ≡ i.position s + 4)
        × (i.contents (i.read_uint32 s).1 ≡ i.contents s)
  pub read_lem :
      (n : ℕ) (s : i.RStream)
      → n ≤ length (drop (i.position s) (i.contents s))
      → ((i.read n s).0 ≡ take n (drop (i.position s) (i.contents s)))
        × (i.position (i.read n s).1 ≡ i.position s + n)
        × (i.contents (i.read n s).1 ≡ i.contents s)
