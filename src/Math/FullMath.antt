-- ===== src/Math/FullMath.antt =====
-- src/math/full_math.ts: full-precision products divided down and up.
pub mod Laws
use ts_hsync_arb.Prelude.{if◌then◌else◌}
use ts_hsync_arb.Prelude.Int.{ℤ, pos, ◌+ℤ◌, ◌*ℤ◌, ltb_ℤ, eqb_ℤ}
use ts_hsync_arb.Prelude.Results.{
  Result, ok, ◌>>=◌, ◌>>◌, throw_if, div, mod_ℤ, mul_div_zero_denominator,
  mul_div_rounding_up_zero_denominator, div_rounding_up_zero_divisor,
}

-- mulDiv
pub mul_div : ℤ → ℤ → ℤ → Result ℤ
mul_div a b denominator = do
  throw_if (eqb_ℤ denominator (pos 0)) mul_div_zero_denominator
  div (a *ℤ b) denominator

-- mulDivRoundingUp
pub mul_div_rounding_up : ℤ → ℤ → ℤ → Result ℤ
mul_div_rounding_up a b denominator = do
  throw_if (eqb_ℤ denominator (pos 0)) mul_div_rounding_up_zero_denominator
  let product = a *ℤ b
  result ← div product denominator
  left ← mod_ℤ product denominator
  ok (if ltb_ℤ (pos 0) left then result +ℤ pos 1 else result)

-- divRoundingUp
pub div_rounding_up : ℤ → ℤ → Result ℤ
div_rounding_up a b = do
  throw_if (eqb_ℤ b (pos 0)) div_rounding_up_zero_divisor
  result ← div a b
  left ← mod_ℤ a b
  ok (if ltb_ℤ (pos 0) left then result +ℤ pos 1 else result)
