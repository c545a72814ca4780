-- ===== src/Examples/Streams.antt =====
-- WinPR with lists: a stream is its capacity and its bytes, a channel the packets written to it. An
-- allocation of 4 GiB or more fails.
use wslg.Common.{ℕ, ◌≡◌, refl, List, [], ◌∷◌, ◌++◌, Option, none, some, arith}
use wslg.Common.{ltb, if◌then◌else◌, length, take, u32_mod, bytes_of_u16, bytes_of_u32}
use wslg.Server.WinPr.{WinPr, Laws}

pub record Buffer : Type 0 where
  pub capacity : ℕ
  pub bytes : List ℕ

abbrev buffer_new : ℕ → Option Buffer
buffer_new n = if ltb n u32_mod then some (record { capacity = n; bytes = [] }) else none

abbrev pub streams : WinPr
streams = record {
  WStream = Buffer;
  Channel = List (List ℕ);
  stream_new = buffer_new;
  stream_capacity = λ s. s.capacity;
  stream_written = λ s. s.bytes;
  stream_write_uint16 = λ s v. record s { bytes = s.bytes ++ bytes_of_u16 v };
  stream_write_uint32 = λ s v. record s { bytes = s.bytes ++ bytes_of_u32 v };
  stream_write = λ s bytes n. record s { bytes = s.bytes ++ take n bytes };
  virtual_channel_write = λ ch bytes. (ch ++ (bytes ∷ []), some (length bytes));
}

buffer_new-empty : (n : ℕ) (s : Buffer) → buffer_new n ≡ some s → (s.capacity ≡ n) × (s.bytes ≡ [])
buffer_new-empty n s h = ground arith

pub streams-Laws : Laws streams
streams-Laws = record {
  stream_new_empty = buffer_new-empty;
  stream_write_uint16_lem = λ v s h. (refl, refl);
  stream_write_uint32_lem = λ v s h. (refl, refl);
  stream_write_lem = λ bytes n s h h'. (refl, refl);
}
