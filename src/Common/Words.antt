-- ===== src/Common/Words.antt =====
-- Unsigned words in memory: both ends of the channel run on little-endian machines.
use Prim.Native.Nat.{ℕ, ◌+◌, ◌*◌, ◌/◌, ◌%◌, ◌^◌, ◌<◌}
use mathlib.Core.Path.{◌≡◌}
use mathlib.Core.List.{List, [], ◌∷◌}
use native.Mathlib.Omega.{arith}

-- The modulus of UINT32 arithmetic.
abbrev pub u32_mod : ℕ
u32_mod = 2 ^ 32

abbrev pub IsU16 : ℕ → Type 0
IsU16 v = v < 2 ^ 16

abbrev pub IsU32 : ℕ → Type 0
IsU32 v = v < 2 ^ 32

-- The two bytes of a UINT16, and the four of a UINT32.
abbrev pub bytes_of_u16 : ℕ → List ℕ
bytes_of_u16 v = (v % 256) ∷ (v / 256 % 256) ∷ []

abbrev pub bytes_of_u32 : ℕ → List ℕ
bytes_of_u32 v = (v % 256) ∷ (v / 256 % 256) ∷ (v / 65536 % 256) ∷ (v / 16777216 % 256) ∷ []

abbrev pub u16_of_bytes : ℕ → ℕ → ℕ
u16_of_bytes a b = a + 256 * b

abbrev pub u32_of_bytes : ℕ → ℕ → ℕ → ℕ → ℕ
u32_of_bytes a b c d = a + 256 * b + 65536 * c + 16777216 * d

pub u16_of_bytes-of_u16 : (v : ℕ) → IsU16 v → u16_of_bytes (v % 256) (v / 256 % 256) ≡ v
u16_of_bytes-of_u16 v h = omega arith

pub u32_of_bytes-of_u32 :
    (v : ℕ)
    → IsU32 v
    → u32_of_bytes (v % 256) (v / 256 % 256) (v / 65536 % 256) (v / 16777216 % 256) ≡ v
u32_of_bytes-of_u32 v h = omega arith
