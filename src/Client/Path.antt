-- ===== src/Client/Path.antt =====
-- C strings of WCHAR as lists of code units, and the bounded string functions that the plugin calls.
-- A function with a size fails where the result and its terminator exceed it.
pub mod Fits
use wslg.Common.{ℕ, ◌+◌, List, [], ◌∷◌, ◌++◌, Bool, true, false, ◌&&◌, ◌||◌, Option, none, some}
use wslg.Common.{ltb, ◌==◌, if◌then◌else◌, length}

-- MAX_PATH
abbrev pub max_path : ℕ
max_path = 260

abbrev pub backslash : List ℕ
backslash = 92 ∷ []

abbrev pub dot_dot : List ℕ
dot_dot = 46 ∷ 46 ∷ []

abbrev pub quote : List ℕ
quote = 34 ∷ []

abbrev pub space : List ℕ
space = 32 ∷ []

abbrev pub dot_ico : List ℕ
dot_ico = 46 ∷ 105 ∷ 99 ∷ 111 ∷ []

abbrev pub dot_lnk : List ℕ
dot_lnk = 46 ∷ 108 ∷ 110 ∷ 107 ∷ []

unfoldable pub starts_with : List ℕ → List ℕ → Bool
starts_with [] s = true
starts_with (p ∷ ps) [] = false
starts_with (p ∷ ps) (c ∷ cs) = (p == c) && starts_with ps cs

-- `wcsstr(s, pattern) != NULL`
unfoldable pub contains : List ℕ → List ℕ → Bool
unfolding starts_with
contains pattern [] = starts_with pattern []
contains pattern (c ∷ cs) = starts_with pattern (c ∷ cs) || contains pattern cs

pub wcscpy_s : ℕ → List ℕ → Option (List ℕ)
wcscpy_s size src = if ltb (length src) size then some src else none

pub wcscat_s : ℕ → List ℕ → List ℕ → Option (List ℕ)
wcscat_s size dst src = if ltb (length dst + length src) size then some (dst ++ src) else none

-- swprintf_s of a text, and the test after it that something was printed.
unfoldable pub printed : ℕ → List ℕ → Option (List ℕ)
printed size [] = none
printed size (c ∷ cs) = if ltb (length (c ∷ cs)) size then some (c ∷ cs) else none

-- `index ∘ find_last_of(L"\\")`: what stands before the last backslash, if there is one.
pub before_last_backslash : List ℕ → Option (List ℕ)
before_last_backslash [] = none
before_last_backslash (c ∷ cs) = elim (before_last_backslash cs) [
  | some dir ↦ some (c ∷ dir)
  | none ↦ if c == 92 then some [] else none
]
