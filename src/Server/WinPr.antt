-- ===== src/Server/WinPr.antt =====
-- What the server uses of WinPR, a library that is not part of the repository: output streams and
-- the virtual channel. `WinPr` holds the operations, and `Laws` what WinPR documents of them.
use wslg.Common.{ℕ, ◌+◌, ◌≤◌, ◌≡◌, List, [], ◌++◌, Option, some}
use wslg.Common.{length, take, bytes_of_u16, bytes_of_u32}

pub record WinPr : Type 1 where
  pub WStream : Type 0
  pub Channel : Type 0
  pub stream_new : ℕ → Option WStream
  pub stream_capacity : WStream → ℕ
  -- The bytes of Stream_Buffer, up to Stream_GetPosition.
  pub stream_written : WStream → List ℕ
  pub stream_write_uint16 : WStream → ℕ → WStream
  pub stream_write_uint32 : WStream → ℕ → WStream
  pub stream_write : WStream → List ℕ → ℕ → WStream
  -- WTSVirtualChannelWrite: the channel after the call, and how much was written unless it failed.
  pub virtual_channel_write : Channel → List ℕ → Channel × Option ℕ

-- A write is defined while it fits the capacity; nothing is known of one that does not.
pub record Laws (w : WinPr) : Type 0 where
  pub stream_new_empty :
      (n : ℕ) (s : w.WStream)
      → w.stream_new n ≡ some s
      → (w.stream_capacity s ≡ n) × (w.stream_written s ≡ [])
  pub stream_write_uint16_lem :
      (v : ℕ) (s : w.WStream)
      → length (w.stream_written s) + 2 ≤ w.stream_capacity s
      → (w.stream_written (w.stream_write_uint16 s v) ≡ w.stream_written s ++ bytes_of_u16 v)
        × (w.stream_capacity (w.stream_write_uint16 s v) ≡ w.stream_capacity s)
  pub stream_write_uint32_lem :
      (v : ℕ) (s : w.WStream)
      → length (w.stream_written s) + 4 ≤ w.stream_capacity s
      → (w.stream_written (w.stream_write_uint32 s v) ≡ w.stream_written s ++ bytes_of_u32 v)
        × (w.stream_capacity (w.stream_write_uint32 s v) ≡ w.stream_capacity s)
  pub stream_write_lem :
      (bytes : List ℕ) (n : ℕ) (s : w.WStream)
      → n ≤ length bytes
      → length (w.stream_written s) + n ≤ w.stream_capacity s
      → (w.stream_written (w.stream_write s bytes n) ≡ w.stream_written s ++ take n bytes)
        × (w.stream_capacity (w.stream_write s bytes n) ≡ w.stream_capacity s)
