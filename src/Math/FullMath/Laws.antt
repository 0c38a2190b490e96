-- ===== src/Math/FullMath/Laws.antt =====
-- src/math/full_math.ts on unsigned arguments: what each helper returns, and that it is the quotient
-- rounded down or up.
use ts_hsync_arb.Prelude.{ℕ, ◌*◌, ◌/◌, ◌<◌, ◌≡◌, arith}
use ts_hsync_arb.Prelude.Int.{pos}
use ts_hsync_arb.Prelude.Results.{ok}
use ts_hsync_arb.Prelude.Division.{ceil_div}
use ts_hsync_arb.Math.FullMath.{mul_div, mul_div_rounding_up, div_rounding_up}

module _ (a b d : ℕ) (h : 0 < d) where
  pub mul_div_pos : mul_div (pos a) (pos b) (pos d) ≡ ok (pos (a * b / d))
  unfolding mul_div
  mul_div_pos = ground arith

  pub mul_div_rounding_up_pos :
      mul_div_rounding_up (pos a) (pos b) (pos d) ≡ ok (pos (ceil_div (a * b) d))
  unfolding mul_div_rounding_up ceil_div
  mul_div_rounding_up_pos = ground arith

pub div_rounding_up_pos :
    (a d : ℕ) → 0 < d → div_rounding_up (pos a) (pos d) ≡ ok (pos (ceil_div a d))
unfolding div_rounding_up ceil_div
div_rounding_up_pos a d h = ground arith
