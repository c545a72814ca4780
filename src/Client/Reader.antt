-- ===== src/Client/Reader.antt =====
-- The read macros of WSLDVCPlugin/rdpapplist.h. `cur` and `len` are one list, the bytes that are
-- left, and `len` is its length. A reader fills fields of a struct as it goes; `error_read` is the
-- jump to Error_Read, with the struct as it is then.
use wslg.Common.{ℕ, ◌+◌, List, [], ◌∷◌, Bool}
use wslg.Common.{ltb, leb, ◌==◌, if◌then◌else◌, length, drop, has_flag, has_all_flags}
use wslg.Common.{u16_of_bytes, u32_of_bytes}
use wslg.Protocol.{max_string_size}
use wslg.Client.Memory.{memcpy, terminate}
use wslg.Client.Pdu.{WString}

pub data Outcome (P : Type 0) : Type 0 where
  done : P → List ℕ → Outcome P
  error_read : P → Outcome P

abbrev pub Reader : Type 0 → Type 0
Reader P = P → List ℕ → Outcome P

-- One read after another; an error skips the rest.
infixl 5 ◌>>◌
abbrev pub ◌>>◌ : {P : Type 0} → Reader P → Reader P → Reader P
◌>>◌ m k p b = elim (m p b) [ done p' rest ↦ k p' rest | error_read p' ↦ error_read p' ]

unfoldable pub read_uint16 : {P : Type 0} → (ℕ → P → P) → Reader P
read_uint16 set p [] = error_read p
read_uint16 set p (a ∷ []) = error_read p
read_uint16 set p (a ∷ b ∷ rest) = done (set (u16_of_bytes a b) p) rest

unfoldable pub read_uint32 : {P : Type 0} → (ℕ → P → P) → Reader P
read_uint32 set p (a ∷ b ∷ c ∷ d ∷ rest) = done (set (u32_of_bytes a b c d) p) rest
read_uint32 set p short = error_read p

-- ReadBYTES into a string's buffer, and the terminator after it.
unfoldable pub read_chars : Bool → Reader WString
read_chars required s b =
    if ltb max_string_size (s.len + 2)
    then error_read s
    else if s.len == 0
    then (if required then error_read s else done s b)
    else if leb s.len (length b)
    then done (record s { chars = terminate s.len (memcpy s.chars b s.len) }) (drop s.len b)
    else error_read s

unfoldable pub read_string : Bool → Reader WString
unfolding read_uint16 read_chars
read_string required = do read_uint16 (λ v s. record s { len = v }); read_chars required

-- ReadSTRING on a field of a larger struct.
unfoldable pub read_string_at : {P : Type 0} → (P → WString) → (WString → P → P) → Bool → Reader P
read_string_at get set required p b = elim (read_string required (get p) b) [
  | done s rest ↦ done (set s p) rest
  | error_read s ↦ error_read (set s p)
]

-- `if (flags & field) { … }`
unfoldable pub on_flag : {P : Type 0} → (P → ℕ) → ℕ → Reader P → Reader P
on_flag flags field m p b = if has_flag (flags p) field then m p b else done p b

unfoldable pub check_required_flags : {P : Type 0} → (P → ℕ) → ℕ → Reader P
check_required_flags flags required p b =
    if has_all_flags (flags p) required then done p b else error_read p
