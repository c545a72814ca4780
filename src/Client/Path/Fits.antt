-- ===== src/Client/Path/Fits.antt =====
-- The bounded string functions where the result fits.
use wslg.Common.{ℕ, [], ◌∷◌, ◌+◌, ◌<◌, ◌≡◌, List, ◌++◌, some, arith, length}
use wslg.Client.Path.{wcscat_s, wcscpy_s, printed}

pub wcscat_s_fits :
    (size : ℕ) (dst src : List ℕ)
    → length dst + length src < size
    → wcscat_s size dst src ≡ some (dst ++ src)
unfolding wcscat_s
wcscat_s_fits size dst src h = ground arith

pub wcscat_s_text :
    (size : ℕ) (dst src s : List ℕ) → wcscat_s size dst src ≡ some s → s ≡ dst ++ src
unfolding wcscat_s
wcscat_s_text size dst src s e = ground arith

pub wcscpy_s_text : (size : ℕ) (src s : List ℕ) → wcscpy_s size src ≡ some s → s ≡ src
unfolding wcscpy_s
wcscpy_s_text size src s e = ground arith

pub printed_text : (size : ℕ) (t s : List ℕ) → printed size t ≡ some s → s ≡ t
unfolding printed
printed_text size [] s e = cc
printed_text size (c ∷ cs) s e = ground arith

pub wcscpy_s_fits : (size : ℕ) (src : List ℕ) → length src < size → wcscpy_s size src ≡ some src
unfolding wcscpy_s
wcscpy_s_fits size src h = ground arith

pub printed_fits :
    (size : ℕ) (t : List ℕ) → 0 < length t → length t < size → printed size t ≡ some t
unfolding printed
printed_fits size [] some_there h = ground arith
printed_fits size (c ∷ cs) some_there h = ground arith
