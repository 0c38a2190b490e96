-- ===== src/Arb/Assessment/Interval.antt =====
-- The interval of getOptimizationOptions (src/arb/assessment.ts).
use ts_hsync_arb.Prelude.{ℕ, ◌<◌, ◌↔◌, arith, some}
use ts_hsync_arb.Prelude.Int.{pos, ◌<ℤ◌}
use ts_hsync_arb.Arb.Assessment.{get_optimization_options}

-- For a quick result of an amount that is not negative, the least amount of the search is above the largest
-- exactly when the amount of the quick result is from 11 to 124.
pub get_optimization_options_inverted :
    (n : ℕ)
    → let o = get_optimization_options (some (pos n)) in
      (o.max_amount <ℤ o.min_amount) ↔ ((10 < n) × (n < 125))
unfolding get_optimization_options
get_optimization_options_inverted n = ground arith
