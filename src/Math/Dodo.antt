-- ===== src/Math/Dodo.antt =====
-- src/math/dodo.ts: the proactive market maker curve. A pool's fields enter after toBigInt.
pub mod Sqrt
pub mod Quadratic
use ts_hsync_arb.Prelude.{
  ℕ, zero, suc, ◌+◌, ◌/◌, ◌^◌, Bool, true, false, ◌&&◌, ◌||◌, if◌then◌else◌, ◌==◌,
}
use ts_hsync_arb.Prelude.Int.{ℤ, pos, ◌+ℤ◌, ◌-ℤ◌, ◌*ℤ◌, abs_ℤ, quot, ltb_ℤ, leb_ℤ, eqb_ℤ}
use ts_hsync_arb.Prelude.Number.{Number, whole, other}
use ts_hsync_arb.Prelude.Results.{Result, ok, err, ◌>>=◌, div, sqrt_negative, out_of_fuel}
use ts_hsync_arb.Math.UniswapV2.{Swap}

abbrev pub one : ℤ
one = pos (10 ^ 18)

abbrev pub one2 : ℤ
one2 = pos (10 ^ 36)

-- `value.toString(2).length` for a positive value: the number of binary digits. The value itself is
-- more fuel than it has digits.
unfoldable pub bit_length : ℕ → ℕ → ℕ
bit_length zero n = 0
bit_length (suc fuel) n = elim (n == 0) [ true ↦ 0 | false ↦ suc (bit_length fuel (n / 2)) ]

-- `(x + value / x) / 2n`
unfoldable pub sqrt_step : ℤ → ℤ → Result ℤ
sqrt_step value x = div value x >>= λ q. ok (quot (x +ℤ q) (pos 2))

-- The `while (x1 < x0)` loop of sqrt.
unfoldable pub sqrt_loop : ℕ → ℤ → ℤ → ℤ → Result ℤ
sqrt_loop zero value x0 x1 = err out_of_fuel
sqrt_loop (suc fuel) value x0 x1 = elim (ltb_ℤ x1 x0) [
  | true ↦ sqrt_step value x1 >>= λ next. sqrt_loop fuel value x1 next
  | false ↦ ok x0
]

-- sqrt; each round lowers x0, so its first value is enough fuel.
unfoldable pub sqrt : ℤ → Result ℤ
sqrt value =
    if ltb_ℤ value (pos 0) then err sqrt_negative else if ltb_ℤ value (pos 2) then ok value else (do
      let x0 = 2 ^ ((bit_length (abs_ℤ value) (abs_ℤ value) + 1) / 2)
      x1 ← sqrt_step value (pos x0)
      sqrt_loop x0 value (pos x0) x1)

-- mulFloor, divFloor, divCeil and reciprocalFloor
abbrev pub mul_floor : ℤ → ℤ → ℤ
mul_floor a b = quot (a *ℤ b) one

abbrev pub div_floor : ℤ → ℤ → ℤ
div_floor a b = if leb_ℤ b (pos 0) then pos 0 else quot (a *ℤ one) b

abbrev pub div_ceil : ℤ → ℤ → ℤ
div_ceil a b = if leb_ℤ b (pos 0) then pos 0 else quot (a *ℤ one +ℤ b -ℤ pos 1) b

abbrev pub reciprocal_floor : ℤ → ℤ
reciprocal_floor target = if leb_ℤ target (pos 0) then pos 0 else quot one2 target

-- generalIntegrate
pub general_integrate : ℤ → ℤ → ℤ → ℤ → ℤ → ℤ
general_integrate v0 v1 v2 i k =
    if (leb_ℤ v0 (pos 0) || (leb_ℤ v1 (pos 0) || (leb_ℤ v2 (pos 0) || ltb_ℤ v1 v2)))
      || (leb_ℤ i (pos 0) || (ltb_ℤ k (pos 0) || ltb_ℤ one k))
    then pos 0
    else (let fair_amount = i *ℤ (v1 -ℤ v2) in
        if eqb_ℤ k (pos 0)
        then quot fair_amount one
        else (let penalty = mul_floor k (div_floor (quot (v0 *ℤ v0) v1) v2) in
            quot ((one -ℤ k +ℤ penalty) *ℤ fair_amount) one2))

-- The end of solveQuadraticFunctionForTrade: what is left of V1 at the root.
abbrev pub trade_at_root : ℤ → ℤ → ℤ → ℤ
trade_at_root v1 numerator denominator =
    let v2 = div_ceil numerator denominator in if ltb_ℤ v1 v2 then pos 0 else v1 -ℤ v2

-- The part of solveQuadraticFunctionForTrade for 0 < k < ONE, from the root on.
abbrev pub after_root : ℤ → ℤ → ℤ → Bool → ℤ → ℤ
after_root v1 k b_abs b_sig root =
    let denominator = (one -ℤ k) *ℤ pos 2 in
    if leb_ℤ denominator (pos 0)
    then pos 0
    else if b_sig
    then if leb_ℤ root b_abs then pos 0 else trade_at_root v1 (root -ℤ b_abs) denominator
    else trade_at_root v1 (b_abs +ℤ root) denominator

-- The parts of the quadratic: the absolute value of b, and whether it is negative.
abbrev pub quadratic_b : ℤ → ℤ → ℤ → ℤ → ℤ → ℤ × Bool
quadratic_b v0 v1 delta i k =
    let part2 = quot (k *ℤ v0) v1 *ℤ v0 +ℤ i *ℤ delta in
    let b = (one -ℤ k) *ℤ v1 in
    if leb_ℤ part2 b then (quot (b -ℤ part2) one, false) else (quot (part2 -ℤ b) one, true)

-- The first guard of solveQuadraticFunctionForTrade.
abbrev pub untradable : ℤ → ℤ → ℤ → ℤ → ℤ → Bool
untradable v0 v1 delta i k =
    (leb_ℤ v0 (pos 0) || (leb_ℤ v1 (pos 0) || leb_ℤ delta (pos 0)))
    || (leb_ℤ i (pos 0) || (ltb_ℤ k (pos 0) || ltb_ℤ one k))

-- The rest of it; the divisors are positive, so only sqrt can throw.
pub solve_tradable : ℤ → ℤ → ℤ → ℤ → ℤ → Result ℤ
solve_tradable v0 v1 delta i k =
    if eqb_ℤ k (pos 0)
    then (let linear = mul_floor i delta in ok (if ltb_ℤ v1 linear then v1 else linear))
    else if eqb_ℤ k one
    then (let idelta = i *ℤ delta in
        let temp = if eqb_ℤ idelta (pos 0) then pos 0 else quot (idelta *ℤ v1) (v0 *ℤ v0) in
        ok (if eqb_ℤ temp (pos 0) then pos 0 else quot (v1 *ℤ temp) (temp +ℤ one)))
    else (let (b_abs, b_sig) = quadratic_b v0 v1 delta i k in
        let under = mul_floor ((one -ℤ k) *ℤ pos 4) (mul_floor k v0 *ℤ v0) in
        sqrt (b_abs *ℤ b_abs +ℤ under) >>= λ root. ok (after_root v1 k b_abs b_sig root))

-- solveQuadraticFunctionForTrade
pub solve_quadratic : ℤ → ℤ → ℤ → ℤ → ℤ → Result ℤ
unfolding solve_tradable
solve_quadratic v0 v1 delta i k =
    if untradable v0 v1 delta i k then ok (pos 0) else solve_tradable v0 v1 delta i k

pub record DodoPool : Type 0 where
  pub i : ℤ
  pub k : ℤ
  pub b : ℤ
  pub q : ℤ
  pub b0 : ℤ
  pub q0 : ℤ
  pub r : Number
  pub lp_fee_rate : ℤ
  pub mt_fee_rate : ℤ

-- `state.R === n`
abbrev pub r_is : Number → ℕ → Bool
r_is other n = false
r_is (whole r) n = eqb_ℤ r (pos n)

-- A trade that first brings the pool back to its targets: `pay` and `receive` are the amounts for that,
-- `before` the trade short of it and `after` the one beyond it.
pub across_one : ℤ → ℤ → ℤ → ℤ → (ℤ → Result ℤ) → Result ℤ
across_one amount pay receive before after =
    if ltb_ℤ amount pay
    then ok (if ltb_ℤ receive before then receive else before)
    else if eqb_ℤ amount pay
    then ok receive
    else after (amount -ℤ pay) >>= λ more. ok (receive +ℤ more)

pub sell_base : DodoPool → ℤ → Result ℤ
unfolding solve_quadratic across_one general_integrate
sell_base p amount =
    if r_is p.r 0
    then solve_quadratic p.q0 p.q0 amount p.i p.k
    else if r_is p.r 1
    then if ltb_ℤ p.b0 p.b || ltb_ℤ p.q p.q0
      then ok (pos 0)
      else across_one amount (p.b0 -ℤ p.b) (p.q -ℤ p.q0)
          (general_integrate p.b0 (p.b +ℤ amount) p.b p.i p.k)
          (λ rest. solve_quadratic p.q0 p.q0 rest p.i p.k)
    else solve_quadratic p.q0 p.q amount p.i p.k

pub sell_quote : DodoPool → ℤ → ℤ → Result ℤ
sell_quote p amount inverse_i =
    if leb_ℤ inverse_i (pos 0)
    then ok (pos 0)
    else if r_is p.r 0
    then solve_quadratic p.b0 p.b0 amount inverse_i p.k
    else if r_is p.r 1
    then solve_quadratic p.b0 p.b amount inverse_i p.k
    else if ltb_ℤ p.q0 p.q || ltb_ℤ p.b p.b0
    then ok (pos 0)
    else across_one amount (p.q0 -ℤ p.q) (p.b -ℤ p.b0)
        (general_integrate p.q0 (p.q +ℤ amount) p.q inverse_i p.k)
        (λ rest. solve_quadratic p.b0 p.b0 rest inverse_i p.k)

-- getDodoGrossAmountOut
pub get_dodo_gross_amount_out : DodoPool → ℤ → Bool → Result ℤ
get_dodo_gross_amount_out p amount base_to_quote =
    if leb_ℤ amount (pos 0)
    then ok (pos 0)
    else if leb_ℤ p.i (pos 0) || (ltb_ℤ p.k (pos 0) || ltb_ℤ one p.k)
    then ok (pos 0)
    else if (leb_ℤ p.b (pos 0) || leb_ℤ p.q (pos 0)) || (leb_ℤ p.b0 (pos 0) || leb_ℤ p.q0 (pos 0))
    then ok (pos 0)
    else if base_to_quote
    then sell_base p amount
    else sell_quote p amount (reciprocal_floor p.i)

-- getDodoAmountOut
pub get_dodo_amount_out : DodoPool → ℤ → Bool → Result ℤ
get_dodo_amount_out p amount base_to_quote = do
  gross ← get_dodo_gross_amount_out p amount base_to_quote
  ok (
      if leb_ℤ gross (pos 0)
      then pos 0
      else if ltb_ℤ p.lp_fee_rate (pos 0)
          || (ltb_ℤ p.mt_fee_rate (pos 0) || leb_ℤ one (p.lp_fee_rate +ℤ p.mt_fee_rate))
      then pos 0
      else gross -ℤ mul_floor gross p.lp_fee_rate -ℤ mul_floor gross p.mt_fee_rate)

-- simulateDodoSwap
pub simulate_dodo_swap : DodoPool → ℤ → Bool → Result Swap
simulate_dodo_swap p amount_in base_to_quote =
    if leb_ℤ amount_in (pos 0) then ok (record { amount_out = pos 0; gas_estimate = 0 }) else (do
      amount_out ← get_dodo_amount_out p amount_in base_to_quote
      ok (record { amount_out = amount_out; gas_estimate = 120_000 }))
