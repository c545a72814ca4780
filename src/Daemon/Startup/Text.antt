-- ===== src/Daemon/Startup/Text.antt =====
-- The text helpers of WSLGd/main.cpp. A text is the list of its bytes, and a C string that of the
-- bytes before its terminator.
pub mod ServiceId
use wslg.Common.{
  ℕ, zero, suc, ◌+◌, ◌-◌, ◌/◌, ◌%◌, List, [], ◌∷◌, ◌++◌, Bool, true, false, ◌&&◌, ◌||◌, Option,
  none, some, codes,
}
use wslg.Common.{ltb, leb, ◌==◌, if◌then◌else◌}
use wslg.Daemon.ProcessMonitor.{is_empty}

-- isspace, isdigit
abbrev pub is_space : ℕ → Bool
is_space c = c == 32 || leb 9 c && leb c 13

abbrev pub is_digit : ℕ → Bool
is_digit c = leb 48 c && leb c 57

unfoldable pub skip_spaces : List ℕ → List ℕ
skip_spaces [] = []
skip_spaces (c ∷ cs) = let rest = skip_spaces cs in if is_space c then rest else c ∷ cs

unfoldable pub skip_digits : List ℕ → List ℕ
skip_digits [] = []
skip_digits (c ∷ cs) = let rest = skip_digits cs in if is_digit c then rest else c ∷ cs

unfoldable pub skip_sign : List ℕ → List ℕ
skip_sign [] = []
skip_sign (c ∷ cs) = if c == 43 || c == 45 then cs else c ∷ cs

abbrev pub starts_with_digit : List ℕ → Bool
starts_with_digit [] = false
starts_with_digit (c ∷ cs) = is_digit c

-- Where strtol stops with base 10: at the text itself, if there is no number.
unfoldable pub strtol_end : List ℕ → List ℕ
unfolding skip_spaces skip_digits skip_sign
strtol_end str =
    let number = skip_sign (skip_spaces str) in
    if starts_with_digit number then skip_digits number else str

-- IsNumeric; none for a null pointer.
unfoldable pub is_numeric : Option (List ℕ) → Bool
unfolding strtol_end
is_numeric none = false
is_numeric (some str) = is_empty (strtol_end str)

-- A digit of "%X".
abbrev pub hex_digit : ℕ → ℕ
hex_digit d = if ltb d 10 then 48 + d else 55 + d

-- "%08X" of an unsigned int.
unfoldable pub hex8 : ℕ → List ℕ
hex8 n =
    hex_digit (n / 0x1000_0000 % 16)
    ∷ hex_digit (n / 0x100_0000 % 16)
    ∷ hex_digit (n / 0x10_0000 % 16)
    ∷ hex_digit (n / 0x1_0000 % 16)
    ∷ hex_digit (n / 0x1000 % 16)
    ∷ hex_digit (n / 0x100 % 16)
    ∷ hex_digit (n / 0x10 % 16)
    ∷ hex_digit (n % 16)
    ∷ []

-- ToServiceId: the std::string has the terminator of snprintf in it.
unfoldable pub to_service_id : ℕ → List ℕ
unfolding hex8
to_service_id port = hex8 port ++ (codes "-FACB-11E6-BD58-64006A7986D3" ++ (0 ∷ []))

-- `while (result.back() == '\n') { result.pop_back(); }`; on an empty text the source reads behind it.
unfoldable pub trim_newlines : List ℕ → List ℕ
trim_newlines [] = []
trim_newlines (c ∷ cs) =
    let rest = trim_newlines cs in if is_empty rest && c == 10 then [] else c ∷ rest

-- std::to_string of a number below ten to the fuel.
unfoldable pub digits : ℕ → ℕ → List ℕ
digits zero n = []
digits (suc fuel) n =
    let rest = digits fuel (n / 10) in (if ltb n 10 then [] else rest) ++ ((48 + n % 10) ∷ [])

-- An int has ten digits at most.
unfoldable pub to_string : ℕ → List ℕ
unfolding digits
to_string n = digits 10 n

-- basename: what follows the last slash.
unfoldable pub basename_from : List ℕ → List ℕ → List ℕ
basename_from part [] = part
basename_from part (c ∷ cs) = basename_from (if c == 47 then [] else part ++ (c ∷ [])) cs

unfoldable pub basename : List ℕ → List ℕ
unfolding basename_from
basename path = basename_from [] path
