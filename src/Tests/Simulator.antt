-- ===== src/Tests/Simulator.antt =====
-- src/routing/simulator.ts and src/arb/assessment.ts at a concrete route.
use ts_hsync_arb.Prelude.{
  ℕ, ◌+◌, ◌<◌, ◌≡◌, ◌↔◌, refl, arith, true, false, none, some, List, [], ◌∷◌,
}
use ts_hsync_arb.Prelude.Int.{ℤ, pos, ◌+ℤ◌, ◌*ℤ◌, ◌≤ℤ◌, ◌<ℤ◌}
use ts_hsync_arb.Prelude.Number.{whole}
use ts_hsync_arb.Prelude.Results.{Result, ok}
use ts_hsync_arb.Prelude.Keys.{nat_key}
use ts_hsync_arb.Prelude.Arrays.Sorting.{InOrder}
use ts_hsync_arb.Prelude.Arrays.Member.{In}
use ts_hsync_arb.Math.UniswapV2.{Swap}
use ts_hsync_arb.Routing.PathHops.{get_path_hop_count, get_result_hop_count}
use ts_hsync_arb.Routing.Simulator.{
  attached, RouteToken, HopEdge, RoutePath, RouteSimResult, simulate_hop, shape_of,
  same_route_token, route_loop, simulate_route,
}
use ts_hsync_arb.Routing.Simulator.Walk.{Walk}
use ts_hsync_arb.Routing.Simulator.Closing.{simulate_route-profitable}
use ts_hsync_arb.Routing.Simulator.Optimize.{OptimizeOptions, ternary_search, optimize_input_amount}
use ts_hsync_arb.Routing.Simulator.Optimize.Range.{Tried, optimize_input_amount-Tried}
use ts_hsync_arb.Routing.Simulator.Batch.{Evaluated, profit_before, evaluate_paths}
use ts_hsync_arb.Routing.Simulator.Batch.Ranking.{SoundEntry, evaluate_paths-SoundEntry}
use ts_hsync_arb.Profit.Compute.{
  ProfitAssessment, accepted, compute_profit, assess, gas_cost_wei, apply_slippage,
  revert_risk_penalty, gas_cost_in_token_units, roi_micro_units, ceil_div_ℤ,
}
use ts_hsync_arb.Arb.Assessment.{AssessmentConfig, get_optimization_options, assess_route_result}
use ts_hsync_arb.Arb.Assessment.Interval.{get_optimization_options_inverted}
use ts_hsync_arb.Arb.Assessment.Threshold.{assess_route_result-worth}
use ts_hsync_arb.Tests.Profit.{route}

abbrev token : ℕ → RouteToken ℕ
token n = record { fast = some n; normalized = some n }

-- A pool that adds five to every amount.
abbrev add_five : ℤ → Result Swap
add_five amount = ok (record { amount_out = amount +ℤ pos 5; gas_estimate = 10 })

abbrev edge : ℕ → ℕ → HopEdge ℕ
edge a b = record {
  token_in = token a;
  token_out = token b;
  pool_address = a;
  protocol = 0;
  state = attached add_five;
  zero_for_one = true;
  fee = none;
}

abbrev cycle : List (HopEdge ℕ)
cycle = edge 1 2 ∷ edge 2 1 ∷ []

abbrev path : RoutePath ℕ
path = record { start_token = token 1; edges = some cycle; hop_count = whole (pos 2) }

abbrev outcome : ℕ → RouteSimResult ℕ
outcome n = record {
  amount_in = pos n;
  amount_out = pos (n + 10);
  profit = pos 10;
  profitable = true;
  hop_amounts = pos n ∷ pos (n + 5) ∷ pos (n + 10) ∷ [];
  total_gas = 20;
  pool_path = 1 ∷ 2 ∷ [];
  token_path = token 1 ∷ token 2 ∷ token 1 ∷ [];
  protocols = 0 ∷ 0 ∷ [];
  hop_count = whole (pos 2);
}

simulate_route-profitable_example :
    (0 < 100)
    × (0 < 2)
    × ((last : RouteToken ℕ) × Walk (token 1) (pos 100) cycle last (pos 110)
        × (same_route_token last (token 1) ≡ true)
        × (get_result_hop_count (shape_of (outcome 100)) ≡ some (pos 2)))
unfolding simulate_route route_loop simulate_hop get_path_hop_count
simulate_route-profitable_example =
    simulate_route-profitable path 100 cycle (outcome 100) refl (omega arith) refl refl

abbrev options : OptimizeOptions ℕ
options = record {
  min_amount = pos 1;
  max_amount = pos 100;
  iterations = 3;
  scorer = λ r. r.profit;
  accept = λ r. r.profitable;
}

optimize_input_amount-Tried_example :
    Tried path options (outcome 67) × ((outcome 67).profitable ≡ true)
unfolding optimize_input_amount ternary_search simulate_route route_loop simulate_hop
    get_path_hop_count
optimize_input_amount-Tried_example =
    optimize_input_amount-Tried path options (outcome 67) (omega arith) refl

abbrev evaluated : List (Evaluated ℕ)
evaluated = record { path = path; result = outcome 100 } ∷ []

evaluate_paths-SoundEntry_example :
    InOrder profit_before evaluated
    × ((e : Evaluated ℕ) → In e evaluated → SoundEntry (path ∷ []) e)
unfolding evaluate_paths simulate_route route_loop simulate_hop get_path_hop_count
evaluate_paths-SoundEntry_example =
    evaluate_paths-SoundEntry false (pos 100) (path ∷ []) evaluated (omega arith) refl

get_optimization_options_inverted_example :
    let o = get_optimization_options (some (pos 50)) in
    (o.max_amount <ℤ o.min_amount) ↔ ((10 < 50) × (50 < 125))
get_optimization_options_inverted_example = get_optimization_options_inverted 50

abbrev config : AssessmentConfig
config = record { min_profit_wei = pos 5000; slippage_bps = none; revert_risk_bps = none }

abbrev assessment : ProfitAssessment
assessment = record {
  should_execute = true;
  gross_profit = pos 200_000;
  gas_cost_wei = pos 7_500_000;
  gas_cost_in_tokens = pos 7500;
  slippage_deduction = pos 6000;
  revert_penalty = pos 9700;
  net_profit = pos 184_300;
  net_profit_after_gas = pos 176_800;
  roi = pos 176_800;
  reject_reason = accepted;
}

assess_route_result-worth_example : pos 5000 ≤ℤ (pos 176_800 *ℤ pos 1000)
unfolding assess_route_result compute_profit assess gas_cost_wei apply_slippage revert_risk_penalty
    gas_cost_in_token_units roi_micro_units ceil_div_ℤ
assess_route_result-worth_example =
    assess_route_result-worth 1000 5000 (omega arith) (whole (pos 2)) route (pos 30) config
      assessment refl refl refl
