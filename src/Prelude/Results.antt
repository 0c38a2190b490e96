-- ===== src/Prelude/Results.antt =====
-- What a call that may throw returns, and BigInt division, which throws on a zero divisor.
use mathlib.Core.Path.{◌≡◌, Path, refl}
use mathlib.Core.Logic.{◌≢◌, ◌⊎◌, inl, inr}
use mathlib.Core.Bool.{Bool, true, false}
use ts_hsync_arb.Prelude.Tests.{if◌then◌else◌}
use ts_hsync_arb.Prelude.Int.{ℤ, pos, quot, rem, eqb_ℤ}

-- One constructor for each error that the modelled code throws.
pub data Error : Type 0 where
  division_by_zero : Error
  mul_div_zero_denominator : Error
  mul_div_rounding_up_zero_denominator : Error
  div_rounding_up_zero_divisor : Error
  denominator_underflow : Error
  price_underflow : Error
  sqrt_price_not_positive : Error
  liquidity_not_positive : Error
  sqrt_ratio_not_positive : Error
  tick_out_of_range : Error
  sqrt_price_out_of_range : Error
  invalid_tick_bounds : Error
  insufficient_liquidity : Error
  sqrt_negative : Error
  negative_gas_cost : Error
  rate_not_positive : Error
  invalid_gas_units : Error
  negative_amount_out : Error
  invalid_slippage : Error
  negative_gross_profit : Error
  invalid_hop_count : Error
  invalid_revert_risk : Error
  missing_fees : Error
  negative_fee : Error
  max_fee_below_base_fee : Error
  negative_budget : Error
  gas_limit_not_positive : Error
  budget_below_base_fee : Error
  out_of_fuel : Error
  route_edges_empty : Error
  start_token_required : Error
  pool_address_required : Error
  token_in_required : Error
  token_out_required : Error
  segment_length_mismatch : Error
  hop_count_not_positive : Error
  hop_count_mismatch : Error
  invalid_from_block : Error
  invalid_to_block : Error
  invalid_block_range : Error
  invalid_max_pages : Error
  max_pages_exceeded : Error
  client_failed : Error
  invalid_archive_height : Error
  logs_not_an_array : Error
  invalid_next_block : Error
  cursor_stalled_without_height : Error
  cursor_regressed : Error
  cursor_stalled : Error

-- The outcome of a call: the value returned, or the error thrown.
pub data Result {ℓ} (Value : Type ℓ) : Type ℓ where
  ok : Value → Result Value
  err : Error → Result Value

module _ {ℓ κ} {Value : Type ℓ} {Next : Type κ} where
  infixl 5 ◌>>=◌
  -- The statements that follow a call, with its value in scope.
  abbrev pub ◌>>=◌ : Result Value → (Value → Result Next) → Result Next
  err thrown >>= rest = err thrown
  ok value >>= rest = rest value

-- `if (test) throw e;`
abbrev pub throw_if : Bool → Error → Result (Unit {0})
throw_if false e = ok tt
throw_if true e = err e

infixl 5 ◌>>◌
-- The statements that follow a test.
abbrev pub ◌>>◌ {κ} : {Next : Type κ} → Result (Unit {0}) → Result Next → Result Next
test >> rest = test >>= λ _. rest

-- BigInt `a / b` and `a % b`.
abbrev pub div : ℤ → ℤ → Result ℤ
div a b = if eqb_ℤ b (pos 0) then err division_by_zero else ok (quot a b)

abbrev pub mod_ℤ : ℤ → ℤ → Result ℤ
mod_ℤ a b = if eqb_ℤ b (pos 0) then err division_by_zero else ok (rem a b)

pub Result-cases {ℓ} :
    {Value : Type ℓ} (r : Result Value)
    → ((thrown : Error) × (r ≡ err thrown)) ⊎ ((value : Value) × (r ≡ ok value))
Result-cases (err thrown) = inl (thrown, refl)
Result-cases (ok value) = inr (value, refl)

pub not-threw {ℓ} : {Value : Type ℓ} {thrown : Error} {value : Value} → err thrown ≢ ok value
not-threw e = cc

pub ok-injective {ℓ} : {Value : Type ℓ} {a b : Value} → ok a ≡ ok b → a ≡ b
ok-injective e = cc

pub err-injective {ℓ} : {Value : Type ℓ} {a b : Error} → Path (Result Value) (err a) (err b) → a ≡ b
err-injective e = cc
