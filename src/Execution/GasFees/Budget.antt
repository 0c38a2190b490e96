-- ===== src/Execution/GasFees/Budget.antt =====
-- capGasFeesToBudget of src/execution/gas.ts with a budget.
use native.Mathlib.Nat.{mul-le-mul_right, div-mul-le_self}
use ts_hsync_arb.Prelude.{
  ℕ, zero, suc, ◌*◌, ◌/◌, ◌≤◌, ◌<◌, ◌≡◌, ◌⊎◌, arith, some, Bool-cases, inl, inr,
}
use ts_hsync_arb.Prelude.Int.{
  ℤ, pos, negsuc, neg_of, ◌*ℤ◌, ltb_ℤ, ◌≤ℤ◌, ◌<ℤ◌, ◌+ℤ◌, ◌-ℤ◌, int_laws, lt_of_ltb, le_of_ltb,
}
use ts_hsync_arb.Prelude.Results.{ok, err, div, budget_below_base_fee}
use ts_hsync_arb.Execution.GasFees.{GasFees, CappedFees, at_most, cap_gas_fees_to_budget}

at_most-left : (a b : ℤ) → at_most a b ≤ℤ a
at_most-left a b = ground arith

at_most-right : (a b : ℤ) → at_most a b ≤ℤ b
at_most-right a b = ground arith

neg_of-le : (m b : ℕ) → neg_of m ≤ℤ pos b
neg_of-le zero b = omega arith
neg_of-le (suc m) b = omega arith

times_le :
    (x : ℤ) (price gas budget : ℕ)
    → x ≤ℤ pos price
    → price * gas ≤ budget
    → x *ℤ pos gas ≤ℤ pos budget
times_le (pos n) price gas budget h paid =
    let up = mul-le-mul_right {m = n} {n = price} gas (omega arith) in omega (arith, up)
times_le (negsuc n) price gas budget h paid = neg_of-le (suc n * gas) budget

-- For a positive gas limit and a budget that is not negative, capGasFeesToBudget throws exactly when the
-- price that the budget affords, the quotient of the two, is below the base fee. Otherwise the gas at
-- the capped fee costs at most the budget, the base fee and the capped priority fee stay within the
-- price afforded, and neither fee is raised.
pub cap_gas_fees_to_budget_cases :
    (f : GasFees) (gas_limit budget : ℕ)
    → 0 < gas_limit
    → ((pos (budget / gas_limit) <ℤ f.base_fee)
        × (cap_gas_fees_to_budget f (pos gas_limit) (some (pos budget))
            ≡ err budget_below_base_fee))
      ⊎ ((c : CappedFees) × (cap_gas_fees_to_budget f (pos gas_limit) (some (pos budget)) ≡ ok c)
          × (f.base_fee ≤ℤ pos (budget / gas_limit))
          × (c.max_fee_per_gas *ℤ pos gas_limit ≤ℤ pos budget)
          × (c.max_fee_per_gas ≤ℤ pos (budget / gas_limit))
          × (f.base_fee +ℤ c.max_priority_fee_per_gas ≤ℤ pos (budget / gas_limit))
          × (c.max_fee_per_gas ≤ℤ f.max_fee_per_gas)
          × (c.max_priority_fee_per_gas ≤ℤ f.max_priority_fee_per_gas))
unfolding cap_gas_fees_to_budget
cap_gas_fees_to_budget_cases f gas_limit budget limit_pos =
    let price : ℕ = budget / gas_limit in
    let afforded : div (pos budget) (pos gas_limit) ≡ ok (pos price) = ground arith in
    let paid : price * gas_limit ≤ budget = div-mul-le_self budget gas_limit in
    elim (Bool-cases (ltb_ℤ (pos price) f.base_fee)) [
      | inl below ↦ inl (lt_of_ltb (pos price) f.base_fee below, ground (arith, afforded, below))
      | inr enough ↦ inr (
        record {
          max_fee_per_gas = at_most f.max_fee_per_gas (pos price);
          max_priority_fee_per_gas = at_most f.max_priority_fee_per_gas (pos price -ℤ f.base_fee);
        },
        ground (arith, afforded, enough),
        le_of_ltb (pos price) f.base_fee enough,
        times_le (at_most f.max_fee_per_gas (pos price)) price gas_limit budget
            (at_most-right f.max_fee_per_gas (pos price)) paid,
        at_most-right f.max_fee_per_gas (pos price),
        omega (int_laws, at_most-right f.max_priority_fee_per_gas (pos price -ℤ f.base_fee)),
        at_most-left f.max_fee_per_gas (pos price),
        at_most-left f.max_priority_fee_per_gas (pos price -ℤ f.base_fee),
      )
    ]
