-- ===== src/Tests/Dodo.antt =====
-- src/math/dodo.ts at concrete amounts.
use ts_hsync_arb.Prelude.{ℕ, ◌*◌, ◌+◌, ◌^◌, ◌≤◌, ◌<◌, ◌≡◌}
use ts_hsync_arb.Prelude.Int.{pos}
use ts_hsync_arb.Prelude.Results.{ok}
use ts_hsync_arb.Math.Dodo.{sqrt, solve_quadratic}
use ts_hsync_arb.Math.Dodo.Sqrt.{sqrt_floor}
use ts_hsync_arb.Math.Dodo.Quadratic.{Bounded, solve_quadratic-Bounded}

sqrt_floor_example :
    (s : ℕ) × (sqrt (pos 99) ≡ ok (pos s)) × (s * s ≤ 99) × (99 < (s + 1) * (s + 1))
sqrt_floor_example = sqrt_floor 99

solve_quadratic-Bounded_example :
    Bounded
      (pos 1000)
      (solve_quadratic (pos 1000) (pos 1000) (pos 10) (pos (10 ^ 18)) (pos (10 ^ 17)))
solve_quadratic-Bounded_example =
    solve_quadratic-Bounded (pos 1000) (pos 1000) (pos 10) (pos (10 ^ 18)) (pos (10 ^ 17))
