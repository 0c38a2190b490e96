-- ===== src/Math/UniswapV3/Swap.antt =====
-- simulateV3Swap of src/math/uniswap_v3.ts on a whole pool.
use mathlib.Core.Option.{get_or}
use ts_hsync_arb.Prelude.{
  ℕ, ◌+◌, ◌*◌, ◌-◌, ◌<◌, ◌≡◌, ◌⊎◌, arith, refl, Bool, true, false, Option, none, some, List,
  Bool-cases, inl, inr, map,
}
use ts_hsync_arb.Prelude.Int.{ℤ, pos, negsuc, ltb_ℤ, leb_ℤ, ◌≤ℤ◌, ◌<ℤ◌}
use ts_hsync_arb.Prelude.Results.{ok, ◌>>=◌}
use ts_hsync_arb.Math.TickMath.{min_tick, min_sqrt_ratio, max_sqrt_ratio}
use ts_hsync_arb.Math.TickMath.Range.{at_min_tick, at_max_tick, max_price}
use ts_hsync_arb.Math.InitializedTicks.{get_sorted_ticks, sort_ticks}
use ts_hsync_arb.Math.UniswapV3.{
  unswappable, V3Pool, V3Quote, SwapState, swap_input, price_limit, v3_iterations, simulate_v3_swap,
}
use ts_hsync_arb.Math.UniswapV3.Ticks.{
  InDomain, AllInitialized, sort_ticks-AllInitialized, TickAbove, min_price,
}
use ts_hsync_arb.Math.UniswapV3.Loop.{swap_loop-Settled}

-- Every tick of the map is of the range, with a price inside the domain.
abbrev pub AllTicks : List (ℤ × ℤ) → Type 0
AllTicks ticks = AllInitialized (map (λ entry. entry.0) ticks)

-- What the guard leaves.
abbrev Passed : ℤ → ℤ × ℤ × ℤ → Type 0
Passed amount_in (price, liquidity, fee) =
    (a p l f : ℕ) × (amount_in ≡ pos a)
    × (price ≡ pos p)
    × (liquidity ≡ pos l)
    × (fee ≡ pos f)
    × InDomain p
    × (0 < l)
    × (f < 1_000_000)

passed :
    (amount_in price liquidity fee : ℤ)
    → leb_ℤ amount_in (pos 0) ≡ false
    → ltb_ℤ price min_sqrt_ratio ≡ false
    → leb_ℤ max_sqrt_ratio price ≡ false
    → leb_ℤ liquidity (pos 0) ≡ false
    → ltb_ℤ fee (pos 0) ≡ false
    → leb_ℤ (pos 1_000_000) fee ≡ false
    → Passed amount_in (price, liquidity, fee)
passed (pos a) (pos p) (pos l) (pos f) h1 h2 h3 h4 h5 h6 =
    (a, p, l, f, refl, refl, refl, refl, (ground arith, ground arith), ground arith, ground arith)
passed (negsuc a) p l f h1 h2 h3 h4 h5 h6 = absurd cc
passed (pos a) (negsuc p) l f h1 h2 h3 h4 h5 h6 = absurd cc
passed (pos a) (pos p) (negsuc l) f h1 h2 h3 h4 h5 h6 = absurd cc
passed (pos a) (pos p) (pos l) (negsuc f) h1 h2 h3 h4 h5 h6 = absurd cc

swap_input-Passed :
    (amount_in : ℤ) (initialized : Bool) (price liquidity fee : Option ℤ)
    → (swap_input amount_in initialized price liquidity fee ≡ none)
      ⊎ ((input : ℤ × ℤ × ℤ) × (swap_input amount_in initialized price liquidity fee ≡ some input)
          × Passed amount_in input)
swap_input-Passed a i none l f = inl refl
swap_input-Passed a i (some p) none f = inl refl
swap_input-Passed a i (some p) (some l) none = inl refl
swap_input-Passed a i (some p) (some l) (some f) = elim (Bool-cases (unswappable a i p l f)) [
  | inl refused ↦ inl (rw refused refl)
  | inr fine ↦ inr (
    (p, l, f),
    rw fine refl,
    passed a p l f (ground arith) (ground arith) (ground arith) (ground arith) (ground arith)
        (ground arith),
  )
]

price_limit_ok :
    (zero_for_one : Bool) → (l : ℕ) × (price_limit zero_for_one ≡ ok (pos l)) × InDomain l
price_limit_ok true = (min_price + 1, rw (at_min_tick, ◌>>=◌) refl, (omega arith, omega arith))
price_limit_ok false = (max_price - 1, rw (at_max_tick, ◌>>=◌) refl, (omega arith, omega arith))

tick_above : (zero_for_one : Bool) (tick : ℤ) → min_tick ≤ℤ tick → TickAbove zero_for_one tick
tick_above true tick h = tt
tick_above false tick h = h

-- On a pool whose initialised ticks are of the range with prices inside the domain, and whose own tick
-- is not below MIN_TICK, simulateV3Swap never throws, whatever its other fields and arguments. The
-- output is not negative, and the price it returns is inside the domain unless nothing was swapped,
-- when the output is zero and the price is the pool's own (0 where it has none).
pub simulate_v3_swap_total :
    (pool : V3Pool) (amount_in : ℤ) (zero_for_one : Bool) (fee_override : Option (Option ℤ))
    → AllTicks pool.ticks
    → min_tick ≤ℤ get_or pool.tick (pos 0)
    → (q : V3Quote) × (simulate_v3_swap pool amount_in zero_for_one fee_override ≡ ok q)
      × (pos 0 ≤ℤ q.amount_out)
      × (((q.amount_out ≡ pos 0) × (q.sqrt_price_after ≡ get_or pool.sqrt_price (pos 0)))
          ⊎ ((min_sqrt_ratio ≤ℤ q.sqrt_price_after) × (q.sqrt_price_after <ℤ max_sqrt_ratio)))
unfolding simulate_v3_swap get_sorted_ticks
simulate_v3_swap_total pool amount_in zero_for_one fee_override hs tick_ok =
    let tick : ℤ = get_or pool.tick (pos 0) in
    let (limit, limited, limit_inside) = price_limit_ok zero_for_one in
    elim (swap_input-Passed amount_in pool.initialized pool.sqrt_price pool.liquidity
      (get_or fee_override pool.fee)) [
        | inl refused ↦ (
          record {
            amount_out = pos 0;
            sqrt_price_after = get_or pool.sqrt_price (pos 0);
            tick_after = tick;
            gas_estimate = 0;
          },
          rw (refused, simulate_v3_swap) refl,
          omega arith,
          inl (refl, refl),
        )
        | inr
              (
                (price, liquidity, fee),
                accepted,
                (a, p, l, f, at_a, at_p, at_l, at_f, inside, l_pos, f_lt),
              ) ↦
            let start : SwapState = record {
              sqrt_price = price;
              tick = tick;
              liquidity = liquidity;
              remaining = amount_in;
              calculated = pos 0;
              crossed = 0;
            } in
            let (s, looped, (q, c, at_q, at_c, q_inside)) =
              swap_loop-Settled pool.ticks (sort_ticks (map (λ entry. entry.0) pool.ticks))
                zero_for_one limit f
                (sort_ticks-AllInitialized (map (λ entry. entry.0) pool.ticks) hs) limit_inside f_lt
                v3_iterations start
                (record {
                  price = p;
                  liquidity = l;
                  remaining = a;
                  calculated = 0;
                  at_price = at_p;
                  at_liquidity = at_l;
                  at_remaining = at_a;
                  at_calculated = refl;
                  in_domain = inside;
                  liquid = l_pos;
                })
                (tick_above zero_for_one tick tick_ok) in
            (
              record {
                amount_out = s.calculated;
                sqrt_price_after = s.sqrt_price;
                tick_after = s.tick;
                gas_estimate = 130_000 + s.crossed * 30_000;
              },
              rw (accepted, simulate_v3_swap)
                  (rw (limited, ◌>>=◌) (rw at_f (rw (looped, ◌>>=◌) refl))),
              rw at_c (omega arith),
              inr (rw at_q (omega (arith, q_inside)), rw at_q (omega (arith, q_inside))),
            )
      ]
