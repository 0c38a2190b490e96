-- ===== src/Math/TickMath/Ratio.antt =====
-- getSqrtRatioAtTick of src/math/tick_math.ts: its values relative to
-- price 1 (2^96). The ratio is bounded below by the value with every factor applied.
use Prim.Native.Nat.{bit_and}
use native.Mathlib.Decide.{dec_lt}
use native.Mathlib.Nat.{mul-le-mul_right, le_trans}
use ts_hsync_arb.Prelude.{
  ℕ, zero, suc, ◌+◌, ◌-◌, ◌%◌, ◌*◌, ◌/◌, ◌^◌, ◌≤◌, ◌<◌, ◌≡◌, ◌⊎◌, List, [], ◌∷◌, arith, ◌==◌,
  if◌then◌else◌, Bool-cases, inl, inr,
}
use ts_hsync_arb.Prelude.Int.{ℤ, pos, negsuc, ◌≤ℤ◌, ◌<ℤ◌}
use ts_hsync_arb.Prelude.Results.{ok, err, tick_out_of_range}
use ts_hsync_arb.Prelude.Division.{div-le_of_le_mul, le-div_of_mul_le}
use ts_hsync_arb.Math.TickMath.{
  apply_factor, apply_factors, factors, first_factor, ratio_of, get_sqrt_ratio_at_tick, min_tick,
  max_tick, max_uint256,
}

-- Every factor stands below 2^128, so a step never raises the ratio.
abbrev Small : List (ℕ × ℕ) → Type 0
Small [] = Unit {0}
Small ((mask, factor) ∷ steps) = (factor ≤ 2 ^ 128) × Small steps

all_factors : List (ℕ × ℕ) → ℕ → ℕ
all_factors [] ratio = ratio
all_factors ((mask, factor) ∷ steps) ratio = all_factors steps (ratio * factor / 2 ^ 128)

scaled_mono : (r s factor : ℕ) → r ≤ s → r * factor / 2 ^ 128 ≤ s * factor / 2 ^ 128
scaled_mono r s factor h = omega (arith, mul-le-mul_right {m = r} {n = s} factor h)

scaled-le : (r factor : ℕ) → factor ≤ 2 ^ 128 → r * factor / 2 ^ 128 ≤ r
scaled-le r factor h = div-le_of_le_mul (r * factor) r (omega arith) (grind arith)

apply_factors-le :
    (abs_tick : ℕ) (steps : List (ℕ × ℕ)) (r : ℕ) → Small steps → apply_factors abs_tick steps r ≤ r
unfolding apply_factors
apply_factors-le abs_tick [] r h = omega arith
apply_factors-le abs_tick ((mask, factor) ∷ steps) r (le, small) =
    let rest = apply_factors-le abs_tick steps (apply_factor abs_tick (mask, factor) r) small in
    ground (arith, rest, scaled-le r factor le)

all_factors-le :
    (abs_tick : ℕ) (steps : List (ℕ × ℕ)) (r s : ℕ)
    → Small steps
    → r ≤ s
    → all_factors steps r ≤ apply_factors abs_tick steps s
unfolding apply_factors all_factors
all_factors-le abs_tick [] r s small h = h
all_factors-le abs_tick ((mask, factor) ∷ steps) r s (le, small) h =
    all_factors-le abs_tick steps (r * factor / 2 ^ 128) (apply_factor abs_tick (mask, factor) s)
      small (ground (arith, scaled-le r factor le, scaled_mono r s factor h))

factors-Small : Small factors
factors-Small = omega arith

-- The lower bound, a little under 2^53.
abbrev low_ratio : ℕ
low_ratio = 2 ^ 52

low_ratio-le : low_ratio ≤ all_factors factors first_factor
unfolding all_factors
low_ratio-le = omega arith

pub ratio_of_bounds :
    (abs_tick : ℕ) → (low_ratio ≤ ratio_of abs_tick) × (ratio_of abs_tick ≤ 2 ^ 128)
unfolding ratio_of
ratio_of_bounds abs_tick = elim (Bool-cases (bit_and abs_tick 0x1 == 0)) [
  | inl even ↦ rw even (
    le_trans low_ratio-le
        (all_factors-le abs_tick factors first_factor (2 ^ 128) factors-Small (omega arith)),
    apply_factors-le abs_tick factors (2 ^ 128) factors-Small,
  )
  | inr odd ↦ rw odd (
    le_trans low_ratio-le
        (all_factors-le abs_tick factors first_factor first_factor factors-Small (omega arith)),
    le_trans (apply_factors-le abs_tick factors first_factor factors-Small) (omega arith),
  )
]

-- The price of a tick: positive, and on the side of 2^96 that the tick's sign says.
abbrev pub Priced : ℤ → Type 0
Priced tick =
    (price : ℕ) × (get_sqrt_ratio_at_tick tick ≡ ok (pos price))
    × (0 < price)
    × (((tick ≤ℤ pos 0) × (price ≤ 2 ^ 96)) ⊎ ((pos 0 <ℤ tick) × (2 ^ 96 ≤ price)))

abbrev round_up : ℕ → ℕ
round_up ratio = if ratio % 2 ^ 32 == 0 then ratio / 2 ^ 32 else ratio / 2 ^ 32 + 1

pub tick-Priced : (tick : ℤ) → min_tick ≤ℤ tick → tick ≤ℤ max_tick → Priced tick
unfolding get_sqrt_ratio_at_tick
tick-Priced (negsuc n) low high =
    let (lo, hi) = ratio_of_bounds (suc n) in
    (round_up (ratio_of (suc n)), ground arith, ground arith, inl (omega arith, ground arith))
tick-Priced (pos zero) low high =
    let (lo, hi) = ratio_of_bounds 0 in
    (round_up (ratio_of 0), ground arith, ground arith, inl (omega arith, ground arith))
tick-Priced (pos (suc n)) low high =
    let (lo, hi) = ratio_of_bounds (suc n) in
    let whole : ℕ = max_uint256 / ratio_of (suc n) in
    let large : 2 ^ 128 - 1 ≤ whole =
      le-div_of_mul_le max_uint256 (2 ^ 128 - 1) (omega arith) (omega arith) in
    (round_up whole, ground arith, ground arith, inr (omega arith, ground arith))

-- On every tick of the range the function returns a positive price, at most 2^96 for a tick up to 0
-- and at least 2^96 above; on every other tick it throws.
pub get_sqrt_ratio_at_tick_cases :
    (tick : ℤ)
    → ((min_tick ≤ℤ tick) × (tick ≤ℤ max_tick) × Priced tick)
      ⊎ (((tick <ℤ min_tick) ⊎ (max_tick <ℤ tick))
          × (get_sqrt_ratio_at_tick tick ≡ err tick_out_of_range))
unfolding get_sqrt_ratio_at_tick
get_sqrt_ratio_at_tick_cases (pos n) = elim (dec_lt 887_272 n) [
  | yes above ↦ inr (inr (omega arith), ground arith)
  | no within ↦ inl (omega arith, omega arith, tick-Priced (pos n) (omega arith) (omega arith))
]
get_sqrt_ratio_at_tick_cases (negsuc n) = elim (dec_lt 887_271 n) [
  | yes below ↦ inr (inl (omega arith), ground arith)
  | no within ↦ inl (omega arith, omega arith, tick-Priced (negsuc n) (omega arith) (omega arith))
]
