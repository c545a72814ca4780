-- ===== src/Client/Memory/Text.antt =====
-- A text that is copied into a buffer and terminated is read back.
use wslg.Common.{ℕ, ◌+◌, ◌*◌, ◌/◌, ◌≤◌, ◌<◌, ◌≡◌, refl, List, [], ◌∷◌, ◌++◌}
use wslg.Common.{arith, length, length-append, length-take, length-drop, take, drop, take-append}
use wslg.Common.{All, IsU16, u16_of_bytes-of_u16}
use wslg.Client.Memory.{memcpy, terminate, text, wide}

-- A code unit of a C string: a WCHAR, and not the terminator.
abbrev pub IsUnit : ℕ → Type 0
IsUnit c = (0 < c) × IsU16 c

pub length-wide : (t : List ℕ) → length (wide t) ≡ 2 * length t
unfolding wide
length-wide [] = omega arith
length-wide (c ∷ cs) = omega (arith, length-wide cs)

text-wide : (t junk : List ℕ) → All IsUnit t → text (wide t ++ (0 ∷ 0 ∷ junk)) ≡ t
unfolding text wide
text-wide [] junk h = refl
text-wide (c ∷ cs) junk h = ground (arith, u16_of_bytes-of_u16 c h.0.1, text-wide cs junk h.1)

-- The buffer after a copy of the text and its terminator.
pub text-terminate-memcpy :
    (buffer src t : List ℕ) (n : ℕ)
    → n ≡ 2 * length t
    → take n src ≡ wide t
    → All IsUnit t
    → text (terminate n (memcpy buffer src n)) ≡ t
unfolding memcpy terminate
text-terminate-memcpy buffer src t n e copied units =
    let even : n / 2 * 2 ≡ n = omega arith in
    let size : length (wide t) ≡ n = omega (arith, length-wide t) in
    rw (even, copied, take-append n (wide t) (drop n buffer) size) (text-wide t _ units)

-- A copy and a terminator within a buffer leave its size as it is.
pub length-memcpy :
    (dst src : List ℕ) (n : ℕ)
    → n ≤ length src
    → n ≤ length dst
    → length (memcpy dst src n) ≡ length dst
unfolding memcpy
length-memcpy dst src n hs hd =
    omega (arith, length-append (take n src) (drop n dst), length-take n src, length-drop n dst)

pub length-terminate :
    (n : ℕ) (chars : List ℕ) → n + 2 ≤ length chars → length (terminate n chars) ≡ length chars
unfolding terminate
length-terminate n chars h = omega (
  arith,
  length-append (take (n / 2 * 2) chars) (0 ∷ 0 ∷ drop (n / 2 * 2 + 2) chars),
  length-take (n / 2 * 2) chars,
  length-drop (n / 2 * 2 + 2) chars,
)
