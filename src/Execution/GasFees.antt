-- ===== src/Execution/GasFees.antt =====
-- src/execution/gas.ts: the effective gas price of a fee snapshot and the cap of fees to a budget.
pub mod Budget
use ts_hsync_arb.Prelude.{Bool, true, false, Option, none, some, if◌then◌else◌}
use ts_hsync_arb.Prelude.Int.{ℤ, pos, ◌+ℤ◌, ◌-ℤ◌, ltb_ℤ, leb_ℤ}
use ts_hsync_arb.Prelude.Results.{
  Result, ok, err, ◌>>=◌, ◌>>◌, throw_if, div, missing_fees, negative_fee, max_fee_below_base_fee,
  negative_budget, gas_limit_not_positive, budget_below_base_fee,
}

pub record FeeSnapshot : Type 0 where
  pub base_fee : ℤ
  pub priority_fee : ℤ
  pub max_fee : ℤ

-- normalizeFeeSnapshot
pub normalize_fee_snapshot : Option FeeSnapshot → Result FeeSnapshot
normalize_fee_snapshot none = err missing_fees
normalize_fee_snapshot (some f) = do
  throw_if (ltb_ℤ f.base_fee (pos 0)) negative_fee
  throw_if (ltb_ℤ f.priority_fee (pos 0)) negative_fee
  throw_if (ltb_ℤ f.max_fee (pos 0)) negative_fee
  throw_if (ltb_ℤ f.max_fee f.base_fee) max_fee_below_base_fee
  ok f

-- effectiveGasPriceWei
pub effective_gas_price_wei : Option FeeSnapshot → Result ℤ
unfolding normalize_fee_snapshot
effective_gas_price_wei fees = do
  f ← normalize_fee_snapshot fees
  let effective = f.base_fee +ℤ f.priority_fee
  ok (if ltb_ℤ f.max_fee effective then f.max_fee else effective)

pub record GasFees : Type 0 where
  pub base_fee : ℤ
  pub max_priority_fee_per_gas : ℤ
  pub max_fee_per_gas : ℤ

-- The two fields that callers of capGasFeesToBudget read.
pub record CappedFees : Type 0 where
  pub max_fee_per_gas : ℤ
  pub max_priority_fee_per_gas : ℤ

-- `a > b ? b : a`
abbrev pub at_most : ℤ → ℤ → ℤ
at_most a b = if ltb_ℤ b a then b else a

-- capGasFeesToBudget
pub cap_gas_fees_to_budget : GasFees → ℤ → Option ℤ → Result CappedFees
cap_gas_fees_to_budget f gas_limit none = ok (record {
  max_fee_per_gas = f.max_fee_per_gas;
  max_priority_fee_per_gas = f.max_priority_fee_per_gas;
})
cap_gas_fees_to_budget f gas_limit (some max_cost) = do
  throw_if (ltb_ℤ max_cost (pos 0)) negative_budget
  throw_if (leb_ℤ gas_limit (pos 0)) gas_limit_not_positive
  affordable ← div max_cost gas_limit
  throw_if (ltb_ℤ affordable f.base_fee) budget_below_base_fee
  ok (record {
    max_fee_per_gas = at_most f.max_fee_per_gas affordable;
    max_priority_fee_per_gas = at_most f.max_priority_fee_per_gas (affordable -ℤ f.base_fee);
  })
