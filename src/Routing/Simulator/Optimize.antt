-- ===== src/Routing/Simulator/Optimize.antt =====
-- src/routing/simulator.ts: optimizeInputAmount. Its cache of evaluations is left out: simulateRoute and the
-- scorer are functions of the amount.
pub mod Range
use ts_hsync_arb.Prelude.{
  ℕ, zero, suc, ◌^◌, Bool, true, false, Option, none, some, List, [], ◌∷◌, if◌then◌else◌,
}
use ts_hsync_arb.Prelude.Int.{ℤ, pos, ◌+ℤ◌, ◌-ℤ◌, ltb_ℤ, leb_ℤ, quot}
use ts_hsync_arb.Prelude.Results.{Result, ok, err, ◌>>=◌}
use ts_hsync_arb.Prelude.Keys.{Key}
use ts_hsync_arb.Routing.Simulator.{RoutePath, RouteSimResult, simulate_route}

pub record OptimizeOptions (K : Type 0) : Type 0 where
  pub min_amount : ℤ
  pub max_amount : ℤ
  pub iterations : ℕ
  pub scorer : RouteSimResult K → ℤ
  pub accept : RouteSimResult K → Bool

-- The defaults of the options.
module _ {K : Type 0} where
  abbrev pub default_options : OptimizeOptions K
  default_options = record {
    min_amount = pos 1000;
    max_amount = pos (10 ^ 24);
    iterations = 40;
    scorer = λ r. r.profit;
    accept = λ r. r.profitable;
  }

-- The variables of the search.
pub record Search (K : Type 0) : Type 0 where
  pub lo : ℤ
  pub hi : ℤ
  pub best : Option (RouteSimResult K)

module _ {K : Type 0} ⦃key : Key K⦄ (path : RoutePath K) (options : OptimizeOptions K) where
  -- `best` after the result of an amount, whose score is compared with that of the amount of `best`.
  abbrev pub better :
      Option (RouteSimResult K) → RouteSimResult K → Result (Option (RouteSimResult K))
  better none result = ok (some result)
  better (some best) result = simulate_route path best.amount_in >>= λ again.
      ok (if ltb_ℤ (options.scorer again) (options.scorer result) then some result else some best)

  -- One round of the loop, for a third of the interval.
  abbrev pub narrow : Search K → ℤ → Result (Search K)
  narrow s third = do
    r1 ← simulate_route path (s.lo +ℤ third)
    r2 ← simulate_route path (s.hi -ℤ third)
    if ltb_ℤ (options.scorer r2) (options.scorer r1)
        then (better s.best r1 >>= λ best.
            ok (record { lo = s.lo; hi = s.hi -ℤ third; best = best }))
        else (better s.best r2 >>= λ best.
            ok (record { lo = s.lo +ℤ third; hi = s.hi; best = best }))

  -- The `for` loop over the iterations.
  unfoldable pub ternary_search : ℕ → Search K → Result (Search K)
  ternary_search zero s = ok s
  ternary_search (suc i) s =
      let third = quot (s.hi -ℤ s.lo) (pos 3) in
      if leb_ℤ third (pos 0) then ok s else (narrow s third >>= λ s'. ternary_search i s')

  -- The loop over the boundaries and the midpoint.
  abbrev pub evaluate_amounts :
      List ℤ → Option (RouteSimResult K) → Result (Option (RouteSimResult K))
  evaluate_amounts [] best = ok best
  evaluate_amounts (amount ∷ amounts) best =
      if leb_ℤ amount (pos 0)
      then evaluate_amounts amounts best
      else (simulate_route path amount >>= λ result.
          better best result >>= λ best'. evaluate_amounts amounts best')

  -- `best && accept(best) ? best : null`
  abbrev pub accepted : Option (RouteSimResult K) → Option (RouteSimResult K)
  accepted none = none
  accepted (some best) = if options.accept best then some best else none

  unfoldable pub optimize_input_amount : Result (Option (RouteSimResult K))
  optimize_input_amount = do
    s ←
        ternary_search options.iterations
          (record { lo = options.min_amount; hi = options.max_amount; best = none })
    best ← evaluate_amounts (s.lo ∷ quot (s.lo +ℤ s.hi) (pos 2) ∷ s.hi ∷ []) s.best
    ok (accepted best)
