-- ===== src/Tests/Math.antt =====
-- src/math at concrete pools.
use ts_hsync_arb.Prelude.{◌^◌, ◌≡◌, ◌≤◌, ◌<◌, ◌*◌, ◌+◌, ◌-◌, refl, arith, ℕ, ◌⊎◌, [], ◌∷◌}
use ts_hsync_arb.Prelude.Int.{ℤ, pos, negsuc, ◌≤ℤ◌, ◌<ℤ◌, ◌+ℤ◌}
use ts_hsync_arb.Prelude.Results.{ok, err, tick_out_of_range}
use ts_hsync_arb.Math.SwapStep.ExactIn.{Outcome, compute_swap_step_exact_in}
use ts_hsync_arb.Math.TickMath.{
  get_tick_at_sqrt_ratio, get_tick_at_sqrt_ratio_in_range, min_tick, max_tick,
  normalise_tick_search_bounds, get_sqrt_ratio_at_tick, min_sqrt_ratio, max_sqrt_ratio, ratio_of,
  apply_factors, tick_in_range, search_in_range, search_tick,
}
use ts_hsync_arb.Math.Curve.{get_y}
use ts_hsync_arb.Math.Curve.Quote.{get_y_total, bigints}
use ts_hsync_arb.Math.TickMath.Ratio.{get_sqrt_ratio_at_tick_cases, Priced}
use ts_hsync_arb.Math.TickMath.Search.{AtMost, Above}
use ts_hsync_arb.Math.TickMath.Range.{
  get_tick_at_sqrt_ratio_bracket, get_tick_at_sqrt_ratio_in_range_bracket,
}
use ts_hsync_arb.Math.UniswapV2.{get_v2_amount_out, get_v2_amount_in}
use ts_hsync_arb.Math.UniswapV2.Laws.{get_v2_amount_out_total}
use ts_hsync_arb.Math.UniswapV2.Product.{
  Ordered, get_v2_amount_out_product, get_v2_amount_out_mono, get_v2_amount_in_suffices,
}

compute_swap_step_exact_in_example : Outcome (2 ^ 96) (2 ^ 95) 1_000_000 5000 3000
compute_swap_step_exact_in_example =
    compute_swap_step_exact_in (2 ^ 96) (2 ^ 95) 1_000_000 5000 3000 (omega arith) (omega arith)
      (omega arith) (omega arith)

get_tick_at_sqrt_ratio_bracket_example :
    (t : ℤ) × (get_tick_at_sqrt_ratio (pos (2 ^ 96)) ≡ ok t)
    × (min_tick ≤ℤ t)
    × (t <ℤ max_tick)
    × AtMost (pos (2 ^ 96)) t
    × Above (pos (2 ^ 96)) (t +ℤ pos 1)
get_tick_at_sqrt_ratio_bracket_example =
    get_tick_at_sqrt_ratio_bracket (2 ^ 96) (omega arith) (omega arith)

get_tick_at_sqrt_ratio_in_range_bracket_example :
    (t : ℤ) × (get_tick_at_sqrt_ratio_in_range (pos (2 ^ 96)) (negsuc 59) (pos 60) ≡ ok t)
    × AtMost (pos (2 ^ 96)) t
    × (((t ≡ pos 60) × (get_sqrt_ratio_at_tick t ≡ ok (pos (2 ^ 96))))
        ⊎ Above (pos (2 ^ 96)) (t +ℤ pos 1))
unfolding normalise_tick_search_bounds
get_tick_at_sqrt_ratio_in_range_bracket_example =
    get_tick_at_sqrt_ratio_in_range_bracket (2 ^ 96) (omega arith) (omega arith) (negsuc 59)
      (pos 60) (negsuc 59) (pos 60) refl

get_sqrt_ratio_at_tick_cases_example :
    ((min_tick ≤ℤ pos 9) × (pos 9 ≤ℤ max_tick) × Priced (pos 9))
    ⊎ (((pos 9 <ℤ min_tick) ⊎ (max_tick <ℤ pos 9))
        × (get_sqrt_ratio_at_tick (pos 9) ≡ err tick_out_of_range))
get_sqrt_ratio_at_tick_cases_example = get_sqrt_ratio_at_tick_cases (pos 9)

-- The ends of the price table, and tick 0 at price 1.
price_table :
    (get_sqrt_ratio_at_tick min_tick ≡ ok min_sqrt_ratio)
    × (get_sqrt_ratio_at_tick max_tick ≡ ok max_sqrt_ratio)
    × (get_tick_at_sqrt_ratio (pos (2 ^ 96)) ≡ ok (pos 0))
unfolding get_sqrt_ratio_at_tick ratio_of apply_factors get_tick_at_sqrt_ratio tick_in_range
    search_in_range search_tick normalise_tick_search_bounds
price_table = (refl, refl, refl)

get_v2_amount_out_total_example :
    (q : ℕ) × (get_v2_amount_out (pos 5) (negsuc 3) (pos 7) (pos 997) (pos 1000) ≡ ok (pos q))
get_v2_amount_out_total_example =
    get_v2_amount_out_total (pos 5) (negsuc 3) (pos 7) (pos 997) (pos 1000)

get_v2_amount_out_product_example :
    (q : ℕ) × (get_v2_amount_out (pos 100) (pos 1000) (pos 2000) (pos 997) (pos 1000) ≡ ok (pos q))
    × (q < 2000)
    × (1000 * 1000 * 2000 ≤ (1000 * 1000 + 100 * 997) * (2000 - q))
    × ((1000 * 1000 + 100 * 997) * (2000 - (q + 1)) < 1000 * 1000 * 2000)
get_v2_amount_out_product_example =
    get_v2_amount_out_product 1000 2000 997 1000 (omega arith) (omega arith) (omega arith)
      (omega arith) 100

get_v2_amount_out_mono_example :
    Ordered (pos 100) (pos 101) (pos 1000) (pos 2000) (pos 997) (pos 1000)
get_v2_amount_out_mono_example =
    get_v2_amount_out_mono (pos 100) (pos 101) (pos 1000) (pos 2000) (pos 997) (pos 1000)
      (omega arith)

get_v2_amount_in_suffices_example :
    (a q : ℕ) × (get_v2_amount_in (pos 500) (pos 1000) (pos 2000) (pos 997) (pos 1000) ≡ ok (pos a))
    × (get_v2_amount_out (pos a) (pos 1000) (pos 2000) (pos 997) (pos 1000) ≡ ok (pos q))
    × (500 ≤ q)
get_v2_amount_in_suffices_example =
    get_v2_amount_in_suffices 1000 2000 997 1000 (omega arith) (omega arith) (omega arith)
      (omega arith) 500 (omega arith) (omega arith)

get_y_total_example :
    (y : ℕ) × (get_y (pos 1100) 0 1 (bigints (1000 ∷ 1000 ∷ [])) (pos 200) (pos 2000) ≡ ok (pos y))
get_y_total_example =
    get_y_total 1100 0 1 1000 (1000 ∷ []) 200 2000 (omega arith) (omega arith) (omega arith)
      (omega arith)
