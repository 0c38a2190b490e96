-- ===== src/Math/UniswapV3.antt =====
-- src/math/uniswap_v3.ts: the swap across initialised ticks. The pool's fields enter as their BigInt
-- conversions, `none` where toBigIntOrNull gives null; `tick` is `none` where it is not an integer.
-- A fee override is `none` where it is missing, and else `some` of its conversion.
pub mod Ticks
pub mod Loop
pub mod Swap
use mathlib.Core.Option.{get_or}
use ts_hsync_arb.Prelude.{
  ℕ, zero, suc, ◌+◌, ◌-◌, ◌*◌, ◌/◌, Bool, true, false, not, ◌||◌, Option, none, some, List, [], ◌∷◌,
  ltb, length, get_elem?, if◌then◌else◌, map,
}
use ts_hsync_arb.Prelude.Int.{ℤ, pos, ◌+ℤ◌, ◌-ℤ◌, ltb_ℤ, leb_ℤ, eqb_ℤ}
use ts_hsync_arb.Prelude.Results.{Result, ok, ◌>>=◌}
use ts_hsync_arb.Math.SwapStep.{SwapStep, compute_swap_step}
use ts_hsync_arb.Math.TickMath.{
  min_tick, max_tick, min_sqrt_ratio, max_sqrt_ratio, get_sqrt_ratio_at_tick,
  get_tick_at_sqrt_ratio_in_range,
}
use ts_hsync_arb.Math.InitializedTicks.{next_initialized_tick, get_sorted_ticks}

-- `state.ticks.get(tick)`, the liquidityNet of a tick
abbrev pub liquidity_net : List (ℤ × ℤ) → ℤ → Option ℤ
liquidity_net [] t = none
liquidity_net ((u, net) ∷ ticks) t = if eqb_ℤ u t then some net else liquidity_net ticks t

pub record V3Pool : Type 0 where
  pub sqrt_price : Option ℤ
  pub liquidity : Option ℤ
  pub fee : Option ℤ
  pub tick : Option ℤ
  pub initialized : Bool
  pub ticks : List (ℤ × ℤ)

pub record V3Quote : Type 0 where
  pub amount_out : ℤ
  pub sqrt_price_after : ℤ
  pub tick_after : ℤ
  pub gas_estimate : ℕ

-- The mutable variables of the loop.
pub record SwapState : Type 0 where
  pub sqrt_price : ℤ
  pub tick : ℤ
  pub liquidity : ℤ
  pub remaining : ℤ
  pub calculated : ℤ
  pub crossed : ℕ

-- sqrtPriceNextTickX96
abbrev pub price_at : Option ℤ → ℤ → Result ℤ
price_at none limit = ok limit
price_at (some t) limit = get_sqrt_ratio_at_tick t

-- sqrtRatioTargetX96
abbrev pub clamp : Bool → ℤ → ℤ → ℤ
clamp zero_for_one price limit =
    if zero_for_one
    then if ltb_ℤ price limit then limit else price
    else if ltb_ℤ limit price
    then limit
    else price

-- minTick and maxTick
abbrev pub tick_bounds : Bool → Option ℤ → ℤ → ℤ × ℤ
tick_bounds true next tick = (get_or next min_tick, tick)
tick_bounds false none tick = (tick, max_tick)
tick_bounds false (some t) tick = (tick, t -ℤ pos 1)

-- The liquidity and the count after a crossing, if the tick has data.
abbrev pub cross : Bool → Option ℤ → SwapState → SwapState
cross zero_for_one none s = s
cross zero_for_one (some net) s = record s {
  liquidity = if zero_for_one then s.liquidity -ℤ net else s.liquidity +ℤ net;
  crossed = s.crossed + 1;
}

abbrev pub move_to : Bool → ℤ → SwapState → SwapState
move_to zero_for_one t s = record s { tick = if zero_for_one then t -ℤ pos 1 else t }

-- The branch that derives the tick from the price and leaves the loop.
pub derive_tick : Bool → Option ℤ → SwapState → Result (SwapState × Bool)
derive_tick zero_for_one next s =
    let (lower, upper) = tick_bounds zero_for_one next s.tick in
    get_tick_at_sqrt_ratio_in_range s.sqrt_price lower upper >>= λ t.
    ok (record s { tick = t }, false)

-- The rest of a round after the swap step: the new state, and whether the loop goes on.
pub finish_round : List (ℤ × ℤ) → Bool → Option ℤ → Bool → SwapState → Result (SwapState × Bool)
finish_round ticks zero_for_one none reached s = derive_tick zero_for_one none s
finish_round ticks zero_for_one (some t) reached s =
    let s' = move_to zero_for_one t (cross zero_for_one (liquidity_net ticks t) s) in
    if reached then ok (s', ltb_ℤ (pos 0) s'.liquidity) else derive_tick zero_for_one (some t) s

abbrev pub after_step : SwapStep → SwapState → SwapState
after_step step s = record s {
  sqrt_price = step.sqrt_ratio_next;
  remaining = s.remaining -ℤ (step.amount_in +ℤ step.fee_amount);
  calculated = s.calculated +ℤ step.amount_out;
}

-- One round of the loop.
pub swap_round : List (ℤ × ℤ) → List ℤ → Bool → ℤ → ℤ → SwapState → Result (SwapState × Bool)
swap_round ticks sorted zero_for_one limit fee s =
    let next = next_initialized_tick sorted s.tick zero_for_one in
    price_at next limit >>= λ price_next.
    compute_swap_step s.sqrt_price (clamp zero_for_one price_next limit) s.liquidity s.remaining fee
    >>= λ step.
        finish_round ticks zero_for_one next (eqb_ℤ step.sqrt_ratio_next price_next)
          (after_step step s)

-- The `for` loop, by the iterations left.
pub swap_loop : ℕ → List (ℤ × ℤ) → List ℤ → Bool → ℤ → ℤ → SwapState → Result SwapState
swap_loop zero ticks sorted zero_for_one limit fee s = ok s
swap_loop (suc i) ticks sorted zero_for_one limit fee s = elim (ltb_ℤ (pos 0) s.remaining) [
  | true ↦ swap_round ticks sorted zero_for_one limit fee s >>= λ (s', goes_on). elim goes_on [
    | true ↦ swap_loop i ticks sorted zero_for_one limit fee s'
    | false ↦ ok s'
  ]
  | false ↦ ok s
]

abbrev pub v3_iterations : ℕ
v3_iterations = 500

-- The first guard, on the converted price, liquidity and fee: those of a pool that can be swapped in.
abbrev pub unswappable : ℤ → Bool → ℤ → ℤ → ℤ → Bool
unswappable amount_in initialized price liquidity fee =
    (leb_ℤ amount_in (pos 0) || not initialized)
    || ((ltb_ℤ price min_sqrt_ratio || leb_ℤ max_sqrt_ratio price)
        || (leb_ℤ liquidity (pos 0) || (ltb_ℤ fee (pos 0) || leb_ℤ (pos 1_000_000) fee)))

abbrev pub swap_input : ℤ → Bool → Option ℤ → Option ℤ → Option ℤ → Option (ℤ × ℤ × ℤ)
swap_input amount_in initialized (some price) (some liquidity) (some fee) =
    if unswappable amount_in initialized price liquidity fee
    then none
    else some (price, liquidity, fee)
swap_input amount_in initialized _ _ _ = none

-- The price limit of the direction.
abbrev pub price_limit : Bool → Result ℤ
price_limit zero_for_one =
    if zero_for_one
    then (get_sqrt_ratio_at_tick min_tick >>= λ p. ok (p +ℤ pos 1))
    else (get_sqrt_ratio_at_tick max_tick >>= λ p. ok (p -ℤ pos 1))

-- simulateV3Swap
pub simulate_v3_swap : V3Pool → ℤ → Bool → Option (Option ℤ) → Result V3Quote
simulate_v3_swap pool amount_in zero_for_one fee_override =
    elim (swap_input amount_in pool.initialized pool.sqrt_price pool.liquidity
      (get_or fee_override pool.fee)) [
        | none ↦ ok (record {
          amount_out = pos 0;
          sqrt_price_after = get_or pool.sqrt_price (pos 0);
          tick_after = get_or pool.tick (pos 0);
          gas_estimate = 0;
        })
        | some (price, liquidity, fee) ↦ price_limit zero_for_one >>= λ limit.
            swap_loop v3_iterations pool.ticks (get_sorted_ticks pool.ticks) zero_for_one limit fee
              (record {
                sqrt_price = price;
                tick = get_or pool.tick (pos 0);
                liquidity = liquidity;
                remaining = amount_in;
                calculated = pos 0;
                crossed = 0;
              })
            >>= λ s. ok (record {
              amount_out = s.calculated;
              sqrt_price_after = s.sqrt_price;
              tick_after = s.tick;
              gas_estimate = 130_000 + s.crossed * 30_000;
            })
      ]

-- quoteV3
pub quote_v3 : V3Pool → ℤ → Bool → Option (Option ℤ) → Result ℤ
quote_v3 pool amount_in zero_for_one fee =
    simulate_v3_swap pool amount_in zero_for_one fee >>= λ q. ok q.amount_out
