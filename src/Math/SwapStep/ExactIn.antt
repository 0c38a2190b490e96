-- ===== src/Math/SwapStep/ExactIn.antt =====
-- computeSwapStep of src/math/swap_math.ts with an exact input, on unsigned arguments.
use Prim.Native.Nat.{min, max}
use native.Mathlib.Decide.{dec_le, dec_lt}
use ts_hsync_arb.Prelude.{
  ℕ, ◌+◌, ◌-◌, ◌*◌, ◌/◌, ◌^◌, ◌≤◌, ◌<◌, ◌≡◌, ◌⊎◌, Bool, true, false, arith, leb, ◌==◌,
  if◌then◌else◌, inl, inr, Bool-cases, refl, ap,
}
use ts_hsync_arb.Prelude.Int.{pos}
use ts_hsync_arb.Prelude.Results.{ok}
use ts_hsync_arb.Prelude.Division.{ceil_div, ceil_div-le_of_le_mul, div-le_of_le_mul}
use ts_hsync_arb.Math.FullMath.Laws.{mul_div_pos, mul_div_rounding_up_pos}
use ts_hsync_arb.Math.SqrtPrice.Laws.{
  get_amount0_delta_up, get_amount0_delta_down, get_amount1_delta_up, get_amount1_delta_down,
  next_from_input_amount0, next_from_input_amount1, next_after_amount0,
}
use ts_hsync_arb.Math.SwapStep.Bounds.{
  rise-lt_of_lt_cost, rise_cost, fall-le, fall-gt_of_lt_cost, fall_cost, fee_covered,
}
use ts_hsync_arb.Math.SwapStep.{compute_swap_step, reach_exact_in, settle, in_delta, out_delta}

-- The step charges and pays the deltas between the current price and the one it ends at, which lies
-- between the current price and the target; what it charges is at most what was offered, and exactly
-- that if it stops short of the target.
abbrev pub Outcome : ℕ → ℕ → ℕ → ℕ → ℕ → Type 0
Outcome current target liquidity remaining fee =
    (next amount_in amount_out fee_amount : ℕ) × (compute_swap_step (pos current) (pos target)
        (pos liquidity) (pos remaining) (pos fee)
      ≡ ok (record {
        sqrt_ratio_next = pos next;
        amount_in = pos amount_in;
        amount_out = pos amount_out;
        fee_amount = pos fee_amount;
      }))
    × (in_delta (leb target current) (pos current) (pos next) (pos liquidity) ≡ ok (pos amount_in))
    × (out_delta (leb target current) (pos current) (pos next) (pos liquidity)
        ≡ ok (pos amount_out))
    × (min current target ≤ next)
    × (next ≤ max current target)
    × (amount_in + fee_amount ≤ remaining)
    × ((next ≡ target) ⊎ (amount_in + fee_amount ≡ remaining))

module _ (c t l remaining fee : ℕ) (fee_lt : fee < 1_000_000) where
  abbrev less : ℕ
  less = remaining * (1_000_000 - fee) / 1_000_000

  less-le : less ≤ remaining
  less-le = div-le_of_le_mul (remaining * (1_000_000 - fee)) remaining (omega arith) (grind arith)

  fee_part : ℕ → ℕ → ℕ
  fee_part next i = if next == t then ceil_div (i * fee) (1_000_000 - fee) else remaining - i

  settle_exact_in :
      (zero_for_one : Bool) (next full i o : ℕ)
      → in_delta zero_for_one (pos c) (pos next) (pos l) ≡ ok (pos i)
      → out_delta zero_for_one (pos c) (pos next) (pos l) ≡ ok (pos o)
      → (next ≡ t → full ≡ i)
      → i ≤ less
      → settle zero_for_one true
          (pos c)
          (pos t)
          (pos l)
          (pos remaining)
          (pos fee)
          (pos next)
          (pos full)
        ≡ ok (record {
          sqrt_ratio_next = pos next;
          amount_in = pos i;
          amount_out = pos o;
          fee_amount = pos (fee_part next i);
        })
  unfolding settle fee_part
  settle_exact_in zero_for_one next full i o hi ho same le =
      ground (arith, less-le, mul_div_rounding_up_pos i fee (1_000_000 - fee) (omega arith))

  conclude :
      (zero_for_one : Bool) (next full i o : ℕ)
      → leb t c ≡ zero_for_one
      → reach_exact_in zero_for_one (pos c) (pos t) (pos l) (pos remaining) (pos fee)
        ≡ ok (pos next, pos full)
      → in_delta zero_for_one (pos c) (pos next) (pos l) ≡ ok (pos i)
      → out_delta zero_for_one (pos c) (pos next) (pos l) ≡ ok (pos o)
      → (next ≡ t → full ≡ i)
      → i ≤ less
      → min c t ≤ next
      → next ≤ max c t
      → Outcome c t l remaining fee
  unfolding compute_swap_step fee_part
  conclude zero_for_one next full i o dir reached hi ho same le low high = (
    next,
    i,
    o,
    fee_part next i,
    ground (arith, settle_exact_in zero_for_one next full i o hi ho same le),
    rw dir hi,
    rw dir ho,
    low,
    high,
    ground (arith, less-le, fee_covered i remaining fee 1_000_000 fee_lt le),
    ground (arith, less-le),
  )

  -- The target is paid for, or the remainder sets a price short of it.
  module _ (c_pos : 0 < c) (t_pos : 0 < t) (l_pos : 0 < l) where
    cost0 : ℕ → ℕ
    cost0 reached = ceil_div (ceil_div (l * 2 ^ 96 * (c - reached)) c) reached

    cost1 : ℕ → ℕ
    cost1 reached = ceil_div (l * (reached - c)) (2 ^ 96)

    falling_reached : t ≤ c → cost0 t ≤ less → Outcome c t l remaining fee
    unfolding cost0 reach_exact_in in_delta out_delta
    falling_reached le paid =
        let up = get_amount0_delta_up t c l le t_pos in
        conclude true t (cost0 t) (cost0 t) (l * (c - t) / 2 ^ 96) (ground arith)
          (ground (arith, mul_div_pos remaining (1_000_000 - fee) 1_000_000 (omega arith))) up
          (get_amount1_delta_down t c l le) (λ _. refl) paid (omega arith) (omega arith)

    cost0_self : cost0 c ≡ 0
    unfolding cost0
    cost0_self =
        let inner = ceil_div-le_of_le_mul (l * 2 ^ 96 * (c - c)) 0 c_pos (grind arith) in
        let outer =
          ceil_div-le_of_le_mul (ceil_div (l * 2 ^ 96 * (c - c)) c) 0 c_pos (omega arith) in
        omega arith

    cost0-pos_lt : (reached : ℕ) → reached ≤ c → 0 < cost0 reached → reached < c
    cost0-pos_lt reached le h = elim (dec_lt reached c) [
      | yes p ↦ p
      | no p ↦ let e : reached ≡ c = omega arith in absurd (omega (arith, ap cost0 e, cost0_self))
    ]

    next0_bounds :
        t ≤ c
        → less < cost0 t
        → let next = next_after_amount0 c l less in (t < next) × (next ≤ c) × (cost0 next ≤ less)
    unfolding next_after_amount0 cost0
    next0_bounds le short = elim (Bool-cases (less == 0)) [
      | inl none_left ↦
          rw none_left (cost0-pos_lt t le (omega arith), omega arith, omega (arith, cost0_self))
      | inr some_left ↦ rw some_left (
        fall-gt_of_lt_cost (l * 2 ^ 96) c less (omega arith) c_pos t t_pos le short,
        fall-le (l * 2 ^ 96) c less (omega arith) c_pos,
        fall_cost (l * 2 ^ 96) c less (omega arith) c_pos,
      )
    ]

    falling_short : t ≤ c → less < cost0 t → Outcome c t l remaining fee
    unfolding cost0 reach_exact_in in_delta out_delta
    falling_short le short =
        let next : ℕ = next_after_amount0 c l less in
        let (above, below, paid) = next0_bounds le short in
        conclude true next (cost0 t) (cost0 next) (l * (c - next) / 2 ^ 96) (ground arith)
          (ground (
            arith,
            get_amount0_delta_up t c l le t_pos,
            mul_div_pos remaining (1_000_000 - fee) 1_000_000 (omega arith),
            next_from_input_amount0 c l less c_pos l_pos,
          ))
          (get_amount0_delta_up next c l below (omega arith))
          (get_amount1_delta_down next c l below) (λ e. absurd (omega arith)) paid (omega arith)
          (omega arith)

    rising_reached : c < t → cost1 t ≤ less → Outcome c t l remaining fee
    unfolding cost1 reach_exact_in in_delta out_delta
    rising_reached lt paid =
        let le : c ≤ t = omega arith in
        let up = get_amount1_delta_up c t l le in
        conclude false t (cost1 t) (cost1 t) (l * 2 ^ 96 * (t - c) / t / c) (ground arith)
          (ground (arith, mul_div_pos remaining (1_000_000 - fee) 1_000_000 (omega arith))) up
          (get_amount0_delta_down c t l le c_pos) (λ _. refl) paid (omega arith) (omega arith)

    rising_short : c < t → less < cost1 t → Outcome c t l remaining fee
    unfolding cost1 reach_exact_in in_delta out_delta
    rising_short lt short =
        let gain : ℕ = less * 2 ^ 96 / l in
        let next : ℕ = c + gain in
        let le : c ≤ next = omega arith in
        let gained : next - c ≡ gain = omega arith in
        let below = rise-lt_of_lt_cost l (2 ^ 96) less l_pos (omega arith) (t - c) short in
        let paid = rise_cost l (2 ^ 96) less l_pos (omega arith) in
        conclude false next (cost1 t) (cost1 next) (l * 2 ^ 96 * (next - c) / next / c)
          (ground arith)
          (ground (
            arith,
            get_amount1_delta_up c t l (omega arith),
            mul_div_pos remaining (1_000_000 - fee) 1_000_000 (omega arith),
            next_from_input_amount1 c l less c_pos l_pos,
          ))
          (get_amount1_delta_up c next l le) (get_amount0_delta_down c next l le c_pos)
          (λ e. absurd (omega arith)) (rw gained paid) (omega arith) (omega arith)

-- With positive prices and liquidity and a fee below 100%, an exact-input step never throws. It ends
-- between the current price and the target; the amounts in and out are the deltas between the current
-- price and the one it ends at; input and fee together are at most what was offered, and they are
-- exactly that when the step stops short of the target.
pub compute_swap_step_exact_in :
    (current target liquidity remaining fee : ℕ)
    → 0 < current
    → 0 < target
    → 0 < liquidity
    → fee < 1_000_000
    → Outcome current target liquidity remaining fee
compute_swap_step_exact_in c t l remaining fee c_pos t_pos l_pos fee_lt = elim (dec_le t c) [
  | yes le ↦ elim (dec_le (cost0 c t l remaining fee fee_lt c_pos t_pos l_pos t) room) [
    | yes paid ↦ falling_reached c t l remaining fee fee_lt c_pos t_pos l_pos le paid
    | no short ↦ falling_short c t l remaining fee fee_lt c_pos t_pos l_pos le (omega arith)
  ]
  | no gt ↦ elim (dec_le (cost1 c t l remaining fee fee_lt c_pos t_pos l_pos t) room) [
    | yes paid ↦ rising_reached c t l remaining fee fee_lt c_pos t_pos l_pos (omega arith) paid
    | no short ↦
        rising_short c t l remaining fee fee_lt c_pos t_pos l_pos (omega arith) (omega arith)
  ]
]
  where
    room : ℕ
    room = remaining * (1_000_000 - fee) / 1_000_000
