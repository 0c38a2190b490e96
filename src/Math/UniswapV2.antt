-- ===== src/Math/UniswapV2.antt =====
-- src/math/uniswap_v2.ts: the constant-product swap. A BigInt quotient throws on a zero divisor, so the
-- functions return results.
pub mod Laws
pub mod Product
use mathlib.Core.Option.{get_or}
use ts_hsync_arb.Prelude.{ℕ, Bool, Option, none, some, ◌||◌, if◌then◌else◌}
use ts_hsync_arb.Prelude.Int.{ℤ, pos, ◌+ℤ◌, ◌-ℤ◌, ◌*ℤ◌, leb_ℤ}
use ts_hsync_arb.Prelude.Results.{Result, ok, ◌>>=◌, ◌>>◌, throw_if, div, insufficient_liquidity}

abbrev pub default_fee_numerator : ℤ
default_fee_numerator = pos 997

abbrev pub fee_denominator : ℤ
fee_denominator = pos 1000

-- What a swap simulator returns.
pub record Swap : Type 0 where
  pub amount_out : ℤ
  pub gas_estimate : ℕ

-- The two reserve guards and the fee guard that both quotes share.
abbrev pub no_pool : ℤ → ℤ → ℤ → ℤ → Bool
no_pool reserve_in reserve_out numerator denominator =
    (leb_ℤ reserve_in (pos 0) || leb_ℤ reserve_out (pos 0))
    || (leb_ℤ numerator (pos 0) || (leb_ℤ denominator (pos 0) || leb_ℤ denominator numerator))

-- getV2AmountOut
pub get_v2_amount_out : ℤ → ℤ → ℤ → ℤ → ℤ → Result ℤ
get_v2_amount_out amount_in reserve_in reserve_out fee_num fee_den =
    if leb_ℤ amount_in (pos 0)
    then ok (pos 0)
    else if no_pool reserve_in reserve_out fee_num fee_den
    then ok (pos 0)
    else (do
      let amount_in_with_fee = amount_in *ℤ fee_num
      let numerator = amount_in_with_fee *ℤ reserve_out
      let denominator = reserve_in *ℤ fee_den +ℤ amount_in_with_fee
      div numerator denominator)

-- getV2AmountIn
pub get_v2_amount_in : ℤ → ℤ → ℤ → ℤ → ℤ → Result ℤ
get_v2_amount_in amount_out reserve_in reserve_out fee_num fee_den =
    if leb_ℤ amount_out (pos 0)
    then ok (pos 0)
    else if no_pool reserve_in reserve_out fee_num fee_den
    then ok (pos 0)
    else (do
      throw_if (leb_ℤ reserve_out amount_out) insufficient_liquidity
      let numerator = reserve_in *ℤ amount_out *ℤ fee_den
      let denominator = (reserve_out -ℤ amount_out) *ℤ fee_num
      quotient ← div numerator denominator
      ok (quotient +ℤ pos 1))

-- The fields of a pool state that the simulator reads, after BigInt conversion.
pub record V2Pool : Type 0 where
  pub reserve0 : ℤ
  pub reserve1 : ℤ
  pub fee : Option ℤ
  pub fee_den : Option ℤ

-- `a ?? b`
abbrev pub or_else {ℓ} : {A : Type ℓ} → Option A → Option A → Option A
or_else none b = b
or_else (some a) b = some a

-- simulateV2Swap
pub simulate_v2_swap : V2Pool → ℤ → Bool → Option ℤ → Option ℤ → Result Swap
simulate_v2_swap pool amount_in zero_for_one fee_numerator fee_denominator' =
    let reserve_in = if zero_for_one then pool.reserve0 else pool.reserve1 in
    let reserve_out = if zero_for_one then pool.reserve1 else pool.reserve0 in
    let nothing : Result Swap = ok (record { amount_out = pos 0; gas_estimate = 0 }) in
    if leb_ℤ amount_in (pos 0)
    then nothing
    else if leb_ℤ reserve_in (pos 0) || leb_ℤ reserve_out (pos 0)
    then nothing
    else (do
      let numerator = get_or (or_else fee_numerator pool.fee) default_fee_numerator
      let denominator = get_or (or_else fee_denominator' pool.fee_den) fee_denominator
      amount_out ← get_v2_amount_out amount_in reserve_in reserve_out numerator denominator
      ok (record { amount_out = amount_out; gas_estimate = 60_000 }))

-- quoteV2
pub quote_v2 : V2Pool → ℤ → Bool → Result ℤ
quote_v2 pool amount_in zero_for_one = do
  swap ← simulate_v2_swap pool amount_in zero_for_one none none
  ok swap.amount_out
