-- ===== src/Tests/Gas.antt =====
-- src/execution/gas.ts at concrete fees and estimates.
use ts_hsync_arb.Prelude.{ℕ, ◌≤◌, ◌/◌, ◌≡◌, ◌⊎◌, arith, some, [], ◌∷◌, length}
use ts_hsync_arb.Prelude.Int.{pos, ◌≤ℤ◌, ◌<ℤ◌, ◌+ℤ◌, ◌*ℤ◌}
use ts_hsync_arb.Prelude.Results.{ok, err, budget_below_base_fee}
use ts_hsync_arb.Prelude.Keys.{nat_key}
use ts_hsync_arb.Execution.GasFees.{GasFees, CappedFees, cap_gas_fees_to_budget}
use ts_hsync_arb.Execution.GasFees.Budget.{cap_gas_fees_to_budget_cases}
use ts_hsync_arb.Execution.GasCache.{GasCache, get_cached_gas_estimate, remember_gas_estimate}
use ts_hsync_arb.Execution.GasCache.Remember.{remember_gas_estimate_lem}

abbrev fees : GasFees
fees = record { base_fee = pos 30; max_priority_fee_per_gas = pos 40; max_fee_per_gas = pos 90 }

cap_gas_fees_to_budget_cases_example :
    ((pos (10_000 / 200) <ℤ fees.base_fee)
      × (cap_gas_fees_to_budget fees (pos 200) (some (pos 10_000)) ≡ err budget_below_base_fee))
    ⊎ ((c : CappedFees) × (cap_gas_fees_to_budget fees (pos 200) (some (pos 10_000)) ≡ ok c)
        × (fees.base_fee ≤ℤ pos (10_000 / 200))
        × (c.max_fee_per_gas *ℤ pos 200 ≤ℤ pos 10_000)
        × (c.max_fee_per_gas ≤ℤ pos (10_000 / 200))
        × (fees.base_fee +ℤ c.max_priority_fee_per_gas ≤ℤ pos (10_000 / 200))
        × (c.max_fee_per_gas ≤ℤ fees.max_fee_per_gas)
        × (c.max_priority_fee_per_gas ≤ℤ fees.max_priority_fee_per_gas))
cap_gas_fees_to_budget_cases_example = cap_gas_fees_to_budget_cases fees 200 10_000 (omega arith)

abbrev old_cache : GasCache ℕ
old_cache =
    (1, record { estimate = pos 21_000; updated_at = 5 })
    ∷ (2, record { estimate = pos 90_000; updated_at = 8 })
    ∷ []

remember_gas_estimate_lem_example :
    let cache = remember_gas_estimate 3 (pos 150_000) 10 2 old_cache in
    (length cache ≤ 2) × ((get_cached_gas_estimate 3 100 120 cache).0 ≡ some (pos 150_000))
remember_gas_estimate_lem_example =
    remember_gas_estimate_lem 3 (pos 150_000) 10 100 120 2 old_cache (omega arith) (omega arith)
