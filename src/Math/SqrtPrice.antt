-- ===== src/Math/SqrtPrice.antt =====
-- src/math/sqrt_price_math.ts: token deltas and next prices from a Q64.96 square-root price.
pub mod Laws
use ts_hsync_arb.Prelude.{Bool, true, false, ◌^◌, if◌then◌else◌}
use ts_hsync_arb.Prelude.Int.{ℤ, pos, ◌+ℤ◌, ◌-ℤ◌, ◌*ℤ◌, ltb_ℤ, leb_ℤ, eqb_ℤ}
use ts_hsync_arb.Prelude.Results.{
  Result, ok, err, ◌>>=◌, ◌>>◌, throw_if, div, denominator_underflow, price_underflow,
  sqrt_price_not_positive, liquidity_not_positive, sqrt_ratio_not_positive,
}
use ts_hsync_arb.Math.FullMath.{mul_div, mul_div_rounding_up, div_rounding_up}

abbrev pub q96 : ℤ
q96 = pos (2 ^ 96)

-- getNextSqrtPriceFromAmount0RoundingUp; `liquidity << 96n` is a product by 2^96.
pub get_next_sqrt_price_from_amount0_rounding_up : ℤ → ℤ → ℤ → Bool → Result ℤ
get_next_sqrt_price_from_amount0_rounding_up sqrt_p liquidity amount add =
    let numerator1 = liquidity *ℤ pos (2 ^ 96) in
    let product = amount *ℤ sqrt_p in
    let denominator = numerator1 +ℤ product in
    if eqb_ℤ amount (pos 0)
    then ok sqrt_p
    else if add
    then if leb_ℤ numerator1 denominator
      then mul_div_rounding_up numerator1 sqrt_p denominator
      else (do ratio ← div numerator1 sqrt_p; div_rounding_up numerator1 (ratio +ℤ amount))
    else (do
      throw_if (leb_ℤ numerator1 product) denominator_underflow
      mul_div_rounding_up numerator1 sqrt_p (numerator1 -ℤ product))

-- getNextSqrtPriceFromAmount1RoundingDown
pub get_next_sqrt_price_from_amount1_rounding_down : ℤ → ℤ → ℤ → Bool → Result ℤ
get_next_sqrt_price_from_amount1_rounding_down sqrt_p liquidity amount add =
    if add then (do quotient ← mul_div amount q96 liquidity; ok (sqrt_p +ℤ quotient)) else (do
      quotient ← mul_div_rounding_up amount q96 liquidity
      throw_if (leb_ℤ sqrt_p quotient) price_underflow
      ok (sqrt_p -ℤ quotient))

-- getNextSqrtPriceFromInput
pub get_next_sqrt_price_from_input : ℤ → ℤ → ℤ → Bool → Result ℤ
get_next_sqrt_price_from_input sqrt_p liquidity amount_in zero_for_one = do
  throw_if (leb_ℤ sqrt_p (pos 0)) sqrt_price_not_positive
  throw_if (leb_ℤ liquidity (pos 0)) liquidity_not_positive
  if zero_for_one
      then get_next_sqrt_price_from_amount0_rounding_up sqrt_p liquidity amount_in true
      else get_next_sqrt_price_from_amount1_rounding_down sqrt_p liquidity amount_in true

-- getNextSqrtPriceFromOutput
pub get_next_sqrt_price_from_output : ℤ → ℤ → ℤ → Bool → Result ℤ
get_next_sqrt_price_from_output sqrt_p liquidity amount_out zero_for_one = do
  throw_if (leb_ℤ sqrt_p (pos 0)) sqrt_price_not_positive
  throw_if (leb_ℤ liquidity (pos 0)) liquidity_not_positive
  if zero_for_one
      then get_next_sqrt_price_from_amount1_rounding_down sqrt_p liquidity amount_out false
      else get_next_sqrt_price_from_amount0_rounding_up sqrt_p liquidity amount_out false

-- The body of getAmount0Delta once the two prices are in order.
amount0_delta_ordered : ℤ → ℤ → ℤ → Bool → Result ℤ
amount0_delta_ordered lower upper liquidity round_up = do
  let numerator1 = liquidity *ℤ pos (2 ^ 96)
  let numerator2 = upper -ℤ lower
  throw_if (leb_ℤ lower (pos 0)) sqrt_ratio_not_positive
  if round_up
      then (do whole ← mul_div_rounding_up numerator1 numerator2 upper; div_rounding_up whole lower)
      else (do whole ← mul_div numerator1 numerator2 upper; div whole lower)

-- getAmount0Delta
pub get_amount0_delta : ℤ → ℤ → ℤ → Bool → Result ℤ
unfolding amount0_delta_ordered
get_amount0_delta a b liquidity round_up =
    if ltb_ℤ b a
    then amount0_delta_ordered b a liquidity round_up
    else amount0_delta_ordered a b liquidity round_up

amount1_delta_ordered : ℤ → ℤ → ℤ → Bool → Result ℤ
amount1_delta_ordered lower upper liquidity round_up =
    if round_up
    then mul_div_rounding_up liquidity (upper -ℤ lower) q96
    else mul_div liquidity (upper -ℤ lower) q96

-- getAmount1Delta
pub get_amount1_delta : ℤ → ℤ → ℤ → Bool → Result ℤ
unfolding amount1_delta_ordered
get_amount1_delta a b liquidity round_up =
    if ltb_ℤ b a
    then amount1_delta_ordered b a liquidity round_up
    else amount1_delta_ordered a b liquidity round_up
