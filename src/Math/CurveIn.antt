-- ===== src/Math/CurveIn.antt =====
-- src/math/curve.ts: the search for an input amount, the simulator and the default rates.
use ts_hsync_arb.Prelude.{
  ℕ, zero, suc, true, false, none, some, List, [], ◌∷◌, length, if◌then◌else◌,
}
use ts_hsync_arb.Prelude.Int.{ℤ, pos, ◌+ℤ◌, ◌*ℤ◌, quot, ltb_ℤ, leb_ℤ}
use ts_hsync_arb.Prelude.Number.{Number}
use ts_hsync_arb.Prelude.Results.{Result, ok, ◌>>=◌}
use ts_hsync_arb.Math.Curve.{
  CurvePool, get_curve_amount_out, array_or_none, valid_curve_indexes, at, precision,
}
use ts_hsync_arb.Math.UniswapV2.{Swap}

-- The first loop of getCurveAmountIn, by the rounds left: `hi` is doubled until it buys enough.
pub expand_bound : ℕ → (ℤ → Result ℤ) → ℤ → ℤ → Result ℤ
expand_bound zero quote amount_out hi = ok hi
expand_bound (suc i) quote amount_out hi = quote hi >>= λ out. elim (leb_ℤ amount_out out) [
  | true ↦ ok hi
  | false ↦ expand_bound i quote amount_out (hi *ℤ pos 2)
]

-- The second loop, by the rounds left.
pub halve_interval : ℕ → (ℤ → Result ℤ) → ℤ → ℤ → ℤ → Result ℤ
halve_interval zero quote amount_out lo hi = ok lo
halve_interval (suc i) quote amount_out lo hi = elim (leb_ℤ hi lo) [
  | true ↦ ok lo
  | false ↦
      let mid = quot (lo +ℤ hi) (pos 2) in
      quote mid >>= λ out. elim (leb_ℤ amount_out out) [
        | true ↦ halve_interval i quote amount_out lo mid
        | false ↦ halve_interval i quote amount_out (mid +ℤ pos 1) hi
      ]
]

-- The search of getCurveAmountIn, after its guards.
pub search_amount_in : (ℤ → Result ℤ) → ℤ → Result ℤ
search_amount_in quote amount_out = do
  hi ← expand_bound 50 quote amount_out (amount_out *ℤ pos 10)
  out ← quote hi
  if ltb_ℤ out amount_out then ok (pos 0) else halve_interval 64 quote amount_out (pos 1) hi

-- getCurveAmountIn
pub get_curve_amount_in : ℤ → CurvePool → Number → Number → Result ℤ
get_curve_amount_in amount_out pool token_in token_out =
    if leb_ℤ amount_out (pos 0) then ok (pos 0) else elim (array_or_none pool.balances) [
      | none ↦ ok (pos 0)
      | some balances ↦ elim (valid_curve_indexes (length balances) token_in token_out) [
        | none ↦ ok (pos 0)
        | some (i, j) ↦
            if leb_ℤ (at balances j) amount_out
            then ok (pos 0)
            else search_amount_in (λ a. get_curve_amount_out a pool token_in token_out) amount_out
      ]
    ]

-- simulateCurveSwap
pub simulate_curve_swap : ℤ → CurvePool → Number → Number → Result Swap
simulate_curve_swap amount_in pool token_in token_out =
    if leb_ℤ amount_in (pos 0) then ok (record { amount_out = pos 0; gas_estimate = 0 }) else (do
      amount_out ← get_curve_amount_out amount_in pool token_in token_out
      ok (record { amount_out = amount_out; gas_estimate = 200_000 }))

-- defaultRates
abbrev pub default_rates : ℕ → List ℤ
default_rates zero = []
default_rates (suc n) = precision ∷ default_rates n
