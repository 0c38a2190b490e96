-- ===== src/Routing/Simulator/Batch.antt =====
-- src/routing/simulator.ts: evaluatePaths. evaluatePathsParallel is this function below its threshold.
pub mod Ranking
use ts_hsync_arb.Prelude.{Bool, true, false, Option, none, some, List, [], ◌∷◌, if◌then◌else◌}
use ts_hsync_arb.Prelude.Int.{ℤ, leb_ℤ}
use ts_hsync_arb.Prelude.Results.{Result, ok, err, ◌>>=◌}
use ts_hsync_arb.Prelude.Keys.{Key}
use ts_hsync_arb.Prelude.Arrays.{sort}
use ts_hsync_arb.Routing.Simulator.{RoutePath, RouteSimResult, simulate_route}
use ts_hsync_arb.Routing.Simulator.Optimize.{default_options, optimize_input_amount}

pub record Evaluated (K : Type 0) : Type 0 where
  pub path : RoutePath K
  pub result : RouteSimResult K

module _ {K : Type 0} where
  -- The comparison of the sort: `a` may stand before `b`.
  abbrev pub profit_before : Evaluated K → Evaluated K → Bool
  profit_before a b = leb_ℤ b.result.profit a.result.profit

  -- `if (optimized) result = optimized`
  abbrev pub or_quick : Option (RouteSimResult K) → RouteSimResult K → RouteSimResult K
  or_quick none quick = quick
  or_quick (some optimized) quick = optimized

module _ {K : Type 0} ⦃key : Key K⦄ where
  -- The result that is pushed for a path whose quick simulation is profitable.
  abbrev pub refine : Bool → RoutePath K → RouteSimResult K → Result (RouteSimResult K)
  refine false path quick = ok quick
  refine true path quick =
      optimize_input_amount path default_options >>= λ optimized. ok (or_quick optimized quick)

  -- The loop over the paths.
  abbrev pub profitable_paths : Bool → ℤ → List (RoutePath K) → Result (List (Evaluated K))
  profitable_paths optimize test_amount [] = ok []
  profitable_paths optimize test_amount (path ∷ paths) = do
    quick ← simulate_route path test_amount
    if quick.profitable
        then (refine optimize path quick >>= λ result.
            profitable_paths optimize test_amount paths >>= λ rest.
            ok (record { path = path; result = result } ∷ rest))
        else profitable_paths optimize test_amount paths

  unfoldable pub evaluate_paths : Bool → ℤ → List (RoutePath K) → Result (List (Evaluated K))
  evaluate_paths optimize test_amount paths =
      profitable_paths optimize test_amount paths >>= λ profitable.
      ok (sort profit_before profitable)
