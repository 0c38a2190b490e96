-- ===== src/Math/SqrtPrice/Laws.antt =====
-- src/math/sqrt_price_math.ts on unsigned arguments, as quotients rounded up and down.
use ts_hsync_arb.Prelude.{
  ℕ, ◌+◌, ◌-◌, ◌*◌, ◌/◌, ◌^◌, ◌≤◌, ◌<◌, ◌≡◌, true, false, arith, ◌==◌, if◌then◌else◌,
}
use ts_hsync_arb.Prelude.Int.{pos}
use ts_hsync_arb.Prelude.Results.{ok}
use ts_hsync_arb.Prelude.Division.{ceil_div}
use ts_hsync_arb.Math.FullMath.Laws.{mul_div_pos, mul_div_rounding_up_pos, div_rounding_up_pos}
use ts_hsync_arb.Math.SqrtPrice.{
  get_next_sqrt_price_from_input, get_next_sqrt_price_from_amount0_rounding_up,
  get_next_sqrt_price_from_amount1_rounding_down, get_amount0_delta, get_amount1_delta,
}

-- Deltas between prices in order.
module _ (lower upper liquidity : ℕ) (le : lower ≤ upper) where
  pub get_amount1_delta_up :
      get_amount1_delta (pos lower) (pos upper) (pos liquidity) true
      ≡ ok (pos (ceil_div (liquidity * (upper - lower)) (2 ^ 96)))
  unfolding get_amount1_delta
  get_amount1_delta_up =
      ground (arith, mul_div_rounding_up_pos liquidity (upper - lower) (2 ^ 96) (omega arith))

  pub get_amount1_delta_down :
      get_amount1_delta (pos lower) (pos upper) (pos liquidity) false
      ≡ ok (pos (liquidity * (upper - lower) / 2 ^ 96))
  unfolding get_amount1_delta
  get_amount1_delta_down =
      ground (arith, mul_div_pos liquidity (upper - lower) (2 ^ 96) (omega arith))

  module _ (lower_pos : 0 < lower) where
    pub get_amount0_delta_up :
        get_amount0_delta (pos lower) (pos upper) (pos liquidity) true
        ≡ ok (pos (ceil_div (ceil_div (liquidity * 2 ^ 96 * (upper - lower)) upper) lower))
    unfolding get_amount0_delta
    get_amount0_delta_up = ground (
      arith,
      mul_div_rounding_up_pos (liquidity * 2 ^ 96) (upper - lower) upper (omega arith),
      div_rounding_up_pos (ceil_div (liquidity * 2 ^ 96 * (upper - lower)) upper) lower lower_pos,
    )

    pub get_amount0_delta_down :
        get_amount0_delta (pos lower) (pos upper) (pos liquidity) false
        ≡ ok (pos (liquidity * 2 ^ 96 * (upper - lower) / upper / lower))
    unfolding get_amount0_delta
    get_amount0_delta_down =
        ground (arith, mul_div_pos (liquidity * 2 ^ 96) (upper - lower) upper (omega arith))

-- The next price after an input of token 0, on numbers.
unfoldable pub next_after_amount0 : ℕ → ℕ → ℕ → ℕ
next_after_amount0 sqrt_p liquidity amount =
    if amount == 0
    then sqrt_p
    else ceil_div (liquidity * 2 ^ 96 * sqrt_p) (liquidity * 2 ^ 96 + amount * sqrt_p)

module _ (sqrt_p liquidity amount : ℕ) (price_pos : 0 < sqrt_p)
    (liquidity_pos : 0 < liquidity) where
  pub next_from_input_amount0 :
      get_next_sqrt_price_from_input (pos sqrt_p) (pos liquidity) (pos amount) true
      ≡ ok (pos (next_after_amount0 sqrt_p liquidity amount))
  unfolding get_next_sqrt_price_from_input get_next_sqrt_price_from_amount0_rounding_up
      next_after_amount0
  next_from_input_amount0 = ground (
    arith,
    mul_div_rounding_up_pos (liquidity * 2 ^ 96) sqrt_p (liquidity * 2 ^ 96 + amount * sqrt_p)
        (omega arith),
  )

  pub next_from_input_amount1 :
      get_next_sqrt_price_from_input (pos sqrt_p) (pos liquidity) (pos amount) false
      ≡ ok (pos (sqrt_p + amount * 2 ^ 96 / liquidity))
  unfolding get_next_sqrt_price_from_input get_next_sqrt_price_from_amount1_rounding_down
  next_from_input_amount1 = ground (arith, mul_div_pos amount (2 ^ 96) liquidity liquidity_pos)
