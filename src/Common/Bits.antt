-- ===== src/Common/Bits.antt =====
-- Flag tests by a bit mask.
use Prim.Native.Nat.{ℕ, zero, suc, ◌<◌, bit_and}
use mathlib.Core.Path.{◌≡◌, refl}
use mathlib.Core.Bool.{Bool, true, false, not, ◌&&◌}
use native.Mathlib.Omega.{arith}
use wslg.Common.Tests.{◌==◌}

-- `flags & mask`, as a condition.
unfoldable pub has_flag : ℕ → ℕ → Bool
has_flag flags mask = not (bit_and flags mask == 0)

-- `(flags & required) == required`
unfoldable pub has_all_flags : ℕ → ℕ → Bool
has_all_flags flags required = bit_and flags required == required

-- No number below `bound` has bit 5 set.
low_bit₅ : ℕ → Bool
low_bit₅ zero = true
low_bit₅ (suc bound) = low_bit₅ bound && (bit_and bound 0x20 == 0)

low_bit₅-apply :
    (flags bound : ℕ) → flags < bound → low_bit₅ bound ≡ true → (bit_and flags 0x20 == 0) ≡ true
unfolding low_bit₅
low_bit₅-apply flags zero lt table = absurd (omega arith)
low_bit₅-apply flags (suc bound) lt table = ground (arith, low_bit₅-apply flags bound)

-- A number with bit 5 set is at least 32.
pub has_flag-0x20 : (flags : ℕ) → flags < 32 → has_flag flags 0x20 ≡ false
unfolding has_flag low_bit₅
has_flag-0x20 flags h = let clear = low_bit₅-apply flags 32 h refl in ground arith
