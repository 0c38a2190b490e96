-- ===== src/Math/Woofi.antt =====
-- src/math/woofi.ts: WOOFi quotes. A field enters as toBigInt reads it, `none` where it takes the fallback; a
-- token enters as its key, `none` where the key is empty; an element of the pool's tokens enters as `none` where
-- it is falsy, and else as `some` of its key.
pub mod Signs
pub mod Reserve
use mathlib.Core.Option.{get_or}
use ts_hsync_arb.Prelude.{
  ℕ, ◌^◌, Bool, true, false, not, ◌&&◌, ◌||◌, Option, none, some, List, [], ◌∷◌, get_elem?,
  if◌then◌else◌,
}
use ts_hsync_arb.Prelude.Int.{ℤ, pos, ◌+ℤ◌, ◌-ℤ◌, ◌*ℤ◌, ltb_ℤ, leb_ℤ, quot}
use ts_hsync_arb.Prelude.Results.{Result, ok, err, ◌>>=◌, div}
use ts_hsync_arb.Prelude.Keys.{Key, get}
use ts_hsync_arb.Math.UniswapV2.{Swap}

abbrev pub woofi_one : ℤ
woofi_one = pos (10 ^ 18)

abbrev pub woofi_fee_denominator : ℤ
woofi_fee_denominator = pos 100_000

pub record BaseState : Type 0 where
  pub price : Option ℤ
  pub coeff : Option ℤ
  pub spread : Option ℤ
  pub base_dec : Option ℤ
  pub quote_dec : Option ℤ
  pub price_dec : Option ℤ
  pub max_gamma : Option ℤ
  pub max_notional_swap : Option ℤ
  pub fee_rate : Option ℤ
  pub reserve : Option ℤ
  pub infeasible : Bool

pub record WoofiPool (K : Type 0) : Type 0 where
  pub quote_token : Option K
  pub base_states : List (K × BaseState)
  pub quote_reserve : Option ℤ
  pub tokens : List (Option (Option K))

-- toBigInt with the fallback 0n, and with 1n.
abbrev pub or_zero : Option ℤ → ℤ
or_zero value = get_or value (pos 0)

abbrev pub or_one : Option ℤ → ℤ
or_one value = get_or value (pos 1)

-- hasPositiveSwapFactor
abbrev pub has_positive_swap_factor : ℤ → ℤ → Bool
has_positive_swap_factor gamma spread =
    leb_ℤ (pos 0) gamma && leb_ℤ (pos 0) spread && ltb_ℤ (gamma +ℤ spread) woofi_one

-- The first two guards of both quotes.
abbrev pub unquotable : BaseState → ℤ → Bool
unquotable s amount =
    leb_ℤ amount (pos 0)
    || leb_ℤ (or_zero s.price) (pos 0)
    || leb_ℤ (or_one s.base_dec) (pos 0)
    || leb_ℤ (or_one s.quote_dec) (pos 0)
    || leb_ℤ (or_one s.price_dec) (pos 0)
    || s.infeasible

-- `max > 0n && value > max`
abbrev pub above_limit : ℤ → ℤ → Bool
above_limit max value = ltb_ℤ (pos 0) max && ltb_ℤ max value

-- `spreadOverride ?? toBigInt(baseState?.spread)`
abbrev pub spread_of : BaseState → Option ℤ → ℤ
spread_of s override = get_or override (or_zero s.spread)

-- The factor of both quotes applied to an amount: `a * (ONE - gamma - spread) / ONE / dec`.
abbrev pub scaled : ℤ → ℤ → ℤ → ℤ → Result ℤ
scaled amount gamma spread dec =
    div (amount *ℤ (woofi_one -ℤ gamma -ℤ spread)) woofi_one >>= λ q. div q dec

-- calcQuoteAmountSellBase
pub calc_quote_amount_sell_base : BaseState → ℤ → Option ℤ → Result ℤ
calc_quote_amount_sell_base s base_amount override =
    let price = or_zero s.price in
    let base_dec = or_one s.base_dec in
    let quote_dec = or_one s.quote_dec in
    let price_dec = or_one s.price_dec in
    let spread = spread_of s override in
    if unquotable s base_amount then ok (pos 0) else (do
      in_base ← div (base_amount *ℤ price *ℤ quote_dec) base_dec
      notional_swap ← div in_base price_dec
      if above_limit (or_zero s.max_notional_swap) notional_swap then ok (pos 0) else (do
        in_price ← div (base_amount *ℤ price *ℤ or_zero s.coeff) price_dec
        gamma ← div in_price base_dec
        if above_limit (or_zero s.max_gamma) gamma || not (has_positive_swap_factor gamma spread)
            then ok (pos 0)
            else (do
              value ← div (base_amount *ℤ price *ℤ quote_dec) price_dec
              scaled value gamma spread base_dec)))

-- calcBaseAmountSellQuote
pub calc_base_amount_sell_quote : BaseState → ℤ → Option ℤ → Result ℤ
calc_base_amount_sell_quote s quote_amount override =
    let price = or_zero s.price in
    let base_dec = or_one s.base_dec in
    let quote_dec = or_one s.quote_dec in
    let price_dec = or_one s.price_dec in
    let spread = spread_of s override in
    if unquotable s quote_amount || above_limit (or_zero s.max_notional_swap) quote_amount
    then ok (pos 0)
    else (do
      gamma ← div (quote_amount *ℤ or_zero s.coeff) quote_dec
      if above_limit (or_zero s.max_gamma) gamma || not (has_positive_swap_factor gamma spread)
          then ok (pos 0)
          else (do
            value ← div (quote_amount *ℤ base_dec *ℤ price_dec) price
            scaled value gamma spread quote_dec))

-- applyWoofiFee
abbrev pub apply_woofi_fee : ℤ → ℤ → ℤ
apply_woofi_fee amount fee_rate =
    if leb_ℤ amount (pos 0)
    then pos 0
    else if ltb_ℤ fee_rate (pos 0) || leb_ℤ woofi_fee_denominator fee_rate
    then pos 0
    else amount -ℤ quot (amount *ℤ fee_rate) woofi_fee_denominator

-- `reserve > 0n && out <= reserve ? out : 0n`
abbrev pub within_reserve : ℤ → ℤ → ℤ
within_reserve reserve out = if ltb_ℤ (pos 0) reserve && leb_ℤ out reserve then out else pos 0

abbrev pub larger : ℤ → ℤ → ℤ
larger a b = if ltb_ℤ b a then a else b

-- toBigInt(getBaseState(...)?.feeRate)
abbrev pub fee_rate_of : Option BaseState → ℤ
fee_rate_of none = pos 0
fee_rate_of (some s) = or_zero s.fee_rate

-- The sale of a base token for the quote token.
abbrev pub sell_to_quote : Option BaseState → ℤ → ℤ → Result ℤ
sell_to_quote none quote_reserve amount = ok (pos 0)
sell_to_quote (some s) quote_reserve amount =
    calc_quote_amount_sell_base s amount none >>= λ gross_quote.
    ok (within_reserve quote_reserve (apply_woofi_fee gross_quote (or_zero s.fee_rate)))

-- The purchase of a base token with the quote token.
abbrev pub buy_with_quote : Option BaseState → ℤ → Result ℤ
buy_with_quote none amount = ok (pos 0)
buy_with_quote (some s) amount =
    calc_base_amount_sell_quote s (apply_woofi_fee amount (or_zero s.fee_rate)) none >>= λ base_out.
    ok (within_reserve (or_zero s.reserve) base_out)

-- The swap of one base token for another.
abbrev pub swap_bases : Option BaseState → Option BaseState → ℤ → Result ℤ
swap_bases none buy amount = ok (pos 0)
swap_bases (some sell) none amount = ok (pos 0)
swap_bases (some sell) (some buy) amount =
    let shared_spread = some (quot (larger (or_zero sell.spread) (or_zero buy.spread)) (pos 2)) in
    let fee_rate = larger (fee_rate_of (some sell)) (fee_rate_of (some buy)) in
    calc_quote_amount_sell_base sell amount shared_spread >>= λ quote_amount.
    calc_base_amount_sell_quote buy (apply_woofi_fee quote_amount fee_rate) shared_spread
    >>= λ base_out. ok (within_reserve (or_zero buy.reserve) base_out)

module _ {K : Type 0} ⦃key : Key K⦄ where
  -- getWoofiFeeRate
  pub get_woofi_fee_rate : WoofiPool K → Option K → Option K → ℤ
  get_woofi_fee_rate pool none token_out = pos 0
  get_woofi_fee_rate pool (some token_in) none = pos 0
  get_woofi_fee_rate pool (some token_in) (some token_out) = elim pool.quote_token [
    | none ↦ pos 0
    | some quote_token ↦
        if key.same token_in token_out
        then pos 0
        else if key.same token_in quote_token
        then fee_rate_of (get token_out pool.base_states)
        else if key.same token_out quote_token
        then fee_rate_of (get token_in pool.base_states)
        else larger (fee_rate_of (get token_in pool.base_states))
            (fee_rate_of (get token_out pool.base_states))
  ]

  -- getWoofiAmountOut once the three tokens are there and the two of the swap differ.
  abbrev pub woofi_route : WoofiPool K → K → ℤ → K → K → Result ℤ
  woofi_route pool quote_token amount token_in token_out =
      if key.same token_out quote_token
      then sell_to_quote (get token_in pool.base_states) (or_zero pool.quote_reserve) amount
      else if key.same token_in quote_token
      then buy_with_quote (get token_out pool.base_states) amount
      else swap_bases (get token_in pool.base_states) (get token_out pool.base_states) amount

  pub get_woofi_amount_out : WoofiPool K → ℤ → Option K → Option K → Result ℤ
  get_woofi_amount_out pool amount none token_out = ok (pos 0)
  get_woofi_amount_out pool amount (some token_in) none = ok (pos 0)
  get_woofi_amount_out pool amount (some token_in) (some token_out) = elim pool.quote_token [
    | none ↦ ok (pos 0)
    | some quote_token ↦
        if leb_ℤ amount (pos 0) || key.same token_in token_out
        then ok (pos 0)
        else woofi_route pool quote_token amount token_in token_out
  ]

  -- tokens[index]: `none` where it is falsy or out of range, else its key.
  abbrev pub token_at : WoofiPool K → ℕ → Option (Option K)
  token_at pool index = elim (get_elem? pool.tokens index) [ none ↦ none | some token ↦ token ]

  abbrev pub both_tokens : Option (Option K) → Option (Option K) → Bool
  both_tokens (some token_in) (some token_out) = true
  both_tokens (some token_in) none = false
  both_tokens none token_out = false

  pub simulate_woofi_swap : ℤ → WoofiPool K → ℕ → ℕ → Result Swap
  simulate_woofi_swap amount_in pool token_in_idx token_out_idx =
      let token_in = token_at pool token_in_idx in
      let token_out = token_at pool token_out_idx in
      if leb_ℤ amount_in (pos 0) || not (both_tokens token_in token_out)
      then ok (record { amount_out = pos 0; gas_estimate = 0 })
      else (get_woofi_amount_out pool amount_in (get_or token_in none) (get_or token_out none)
          >>= λ out. ok (record { amount_out = out; gas_estimate = 150_000 }))
