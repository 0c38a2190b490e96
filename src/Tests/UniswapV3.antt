-- ===== src/Tests/UniswapV3.antt =====
-- src/math/uniswap_v3.ts at a concrete pool.
use ts_hsync_arb.Prelude.{◌^◌, ◌≡◌, ◌⊎◌, refl, arith, true, false, none, some, [], ◌∷◌}
use ts_hsync_arb.Prelude.Int.{pos, negsuc, ◌≤ℤ◌, ◌<ℤ◌}
use ts_hsync_arb.Prelude.Results.{ok}
use ts_hsync_arb.Math.TickMath.{
  get_sqrt_ratio_at_tick, ratio_of, apply_factors, min_sqrt_ratio, max_sqrt_ratio,
}
use ts_hsync_arb.Math.InitializedTicks.{next_initialized_tick, get_sorted_ticks}
use ts_hsync_arb.Math.InitializedTicks.Scan.{last_at_most, first_above, next_initialized_tick-scan}
use ts_hsync_arb.Math.UniswapV3.{V3Pool, V3Quote, simulate_v3_swap}
use ts_hsync_arb.Math.UniswapV3.Swap.{simulate_v3_swap_total}

-- Liquidity between ticks -60 and 60, at price 1.
abbrev pool : V3Pool
pool = record {
  sqrt_price = some (pos (2 ^ 96));
  liquidity = some (pos 1_000_000_000);
  fee = some (pos 3000);
  tick = some (pos 0);
  initialized = true;
  ticks = (pos 60, negsuc 999_999_999) ∷ (negsuc 59, pos 1_000_000_000) ∷ [];
}

sorted : get_sorted_ticks pool.ticks ≡ negsuc 59 ∷ pos 60 ∷ []
unfolding get_sorted_ticks
sorted = refl

next_initialized_tick-scan_example :
    let ticks = get_sorted_ticks pool.ticks in
    (next_initialized_tick ticks (pos 0) true ≡ last_at_most ticks (pos 0))
    × (next_initialized_tick ticks (pos 0) false ≡ first_above ticks (pos 0))
next_initialized_tick-scan_example = next_initialized_tick-scan pool.ticks (pos 0)

simulate_v3_swap_total_example :
    (q : V3Quote) × (simulate_v3_swap pool (pos 1000) true none ≡ ok q)
    × (pos 0 ≤ℤ q.amount_out)
    × (((q.amount_out ≡ pos 0) × (q.sqrt_price_after ≡ pos (2 ^ 96)))
        ⊎ ((min_sqrt_ratio ≤ℤ q.sqrt_price_after) × (q.sqrt_price_after <ℤ max_sqrt_ratio)))
unfolding get_sqrt_ratio_at_tick ratio_of apply_factors
simulate_v3_swap_total_example =
    simulate_v3_swap_total pool (pos 1000) true none
      (
        (
          omega arith,
          omega arith,
          (79466191966197645195421774833, refl, (omega arith, omega arith)),
        ),
        (
          (
            omega arith,
            omega arith,
            (78990846045029531151608375686, refl, (omega arith, omega arith)),
          ),
          tt,
        ),
      )
      (omega arith)
