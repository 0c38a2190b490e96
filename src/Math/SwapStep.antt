-- ===== src/Math/SwapStep.antt =====
-- src/math/swap_math.ts: the swap inside one tick range.
pub mod Bounds
pub mod ExactIn
use ts_hsync_arb.Prelude.{Bool, true, false, not, ◌&&◌, if◌then◌else◌}
use ts_hsync_arb.Prelude.Int.{ℤ, pos, ◌-ℤ◌, neg_ℤ, ltb_ℤ, leb_ℤ, eqb_ℤ}
use ts_hsync_arb.Prelude.Results.{Result, ok, ◌>>=◌}
use ts_hsync_arb.Math.FullMath.{mul_div, mul_div_rounding_up}
use ts_hsync_arb.Math.SqrtPrice.{
  get_next_sqrt_price_from_input, get_next_sqrt_price_from_output, get_amount0_delta,
  get_amount1_delta,
}

pub record SwapStep : Type 0 where
  pub sqrt_ratio_next : ℤ
  pub amount_in : ℤ
  pub amount_out : ℤ
  pub fee_amount : ℤ

abbrev pub fee_scale : ℤ
fee_scale = pos 1_000_000

-- The amount of the input token between the price `current` and the price `reached`, rounded up.
pub in_delta : Bool → ℤ → ℤ → ℤ → Result ℤ
in_delta zero_for_one current reached liquidity =
    if zero_for_one
    then get_amount0_delta reached current liquidity true
    else get_amount1_delta current reached liquidity true

-- The amount of the output token, rounded down.
pub out_delta : Bool → ℤ → ℤ → ℤ → Result ℤ
out_delta zero_for_one current reached liquidity =
    if zero_for_one
    then get_amount1_delta reached current liquidity false
    else get_amount0_delta current reached liquidity false

-- The first half: the next price, with the amount computed for the whole range.
pub reach_exact_in : Bool → ℤ → ℤ → ℤ → ℤ → ℤ → Result (ℤ × ℤ)
reach_exact_in zero_for_one current target liquidity remaining fee_pips = do
  less_fee ← mul_div remaining (fee_scale -ℤ fee_pips) fee_scale
  amount_in ← in_delta zero_for_one current target liquidity
  next ←
      if leb_ℤ amount_in less_fee
      then ok target
      else get_next_sqrt_price_from_input current liquidity less_fee zero_for_one
  ok (next, amount_in)

pub reach_exact_out : Bool → ℤ → ℤ → ℤ → ℤ → Result (ℤ × ℤ)
reach_exact_out zero_for_one current target liquidity remaining = do
  amount_out ← out_delta zero_for_one current target liquidity
  next ←
      if leb_ℤ amount_out (neg_ℤ remaining)
      then ok target
      else get_next_sqrt_price_from_output current liquidity (neg_ℤ remaining) zero_for_one
  ok (next, amount_out)

-- The second half: the amounts are computed again unless the target was reached, the output is capped,
-- and the fee is charged. `full` is the amount that the first half computed.
pub settle : Bool → Bool → ℤ → ℤ → ℤ → ℤ → ℤ → ℤ → ℤ → Result SwapStep
settle zero_for_one exact_in current target liquidity remaining fee_pips next full = do
  let max = eqb_ℤ target next
  amount_in ← if max && exact_in then ok full else in_delta zero_for_one current next liquidity
  out ← if max && not exact_in then ok full else out_delta zero_for_one current next liquidity
  let amount_out = if not exact_in && ltb_ℤ (neg_ℤ remaining) out then neg_ℤ remaining else out
  fee_amount ←
      if exact_in && not (eqb_ℤ next target)
      then ok (remaining -ℤ amount_in)
      else mul_div_rounding_up amount_in fee_pips (fee_scale -ℤ fee_pips)
  ok (record {
    sqrt_ratio_next = next;
    amount_in = amount_in;
    amount_out = amount_out;
    fee_amount = fee_amount;
  })

-- computeSwapStep
unfoldable pub compute_swap_step : ℤ → ℤ → ℤ → ℤ → ℤ → Result SwapStep
compute_swap_step current target liquidity remaining fee_pips = do
  let zero_for_one = leb_ℤ target current
  let exact_in = leb_ℤ (pos 0) remaining
  (next, full) ←
      if exact_in
      then reach_exact_in zero_for_one current target liquidity remaining fee_pips
      else reach_exact_out zero_for_one current target liquidity remaining
  settle zero_for_one exact_in current target liquidity remaining fee_pips next full
