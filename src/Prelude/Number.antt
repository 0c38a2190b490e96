-- ===== src/Prelude/Number.antt =====
-- JavaScript `number` values where the code asks only whether they are safe integers: an integer, or
-- any other value (a fraction, NaN, an infinity).
use Prim.Native.Nat.{◌^◌, ◌-◌}
use mathlib.Core.Bool.{Bool, false}
use ts_hsync_arb.Prelude.Tests.{leb}
use ts_hsync_arb.Prelude.Int.{ℤ, abs_ℤ}

pub data Number : Type 0 where
  whole : ℤ → Number
  other : Number

-- Number.isSafeInteger
abbrev pub is_safe_integer : Number → Bool
is_safe_integer (whole n) = leb (abs_ℤ n) (2 ^ 53 - 1)
is_safe_integer other = false
