-- ===== src/Client/Memory.antt =====
-- Fixed buffers as lists of bytes, and the C strings of WCHAR in them.
pub mod Text
use wslg.Common.{ℕ, ◌+◌, ◌*◌, ◌/◌, List, [], ◌∷◌, ◌++◌}
use wslg.Common.{◌==◌, if◌then◌else◌, take, drop, bytes_of_u16, u16_of_bytes}

-- memcpy(dst, src, n), where both buffers hold n bytes at least.
unfoldable pub memcpy : List ℕ → List ℕ → ℕ → List ℕ
memcpy dst src n = take n src ++ drop n dst

-- `chars[n / sizeof(WCHAR)] = L'\0'`
unfoldable pub terminate : ℕ → List ℕ → List ℕ
terminate n chars = take (n / 2 * 2) chars ++ (0 ∷ 0 ∷ drop (n / 2 * 2 + 2) chars)

-- The code units of a buffer, up to the first zero.
unfoldable pub text : List ℕ → List ℕ
text [] = []
text (a ∷ []) = []
text (a ∷ b ∷ rest) = if u16_of_bytes a b == 0 then [] else u16_of_bytes a b ∷ text rest

-- The bytes of a text, without a terminator.
pub wide : List ℕ → List ℕ
wide [] = []
wide (c ∷ cs) = bytes_of_u16 c ++ wide cs
