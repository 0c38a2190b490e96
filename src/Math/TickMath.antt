-- ===== src/Math/TickMath.antt =====
-- src/math/tick_math.ts: ticks and Q64.96 square-root prices. A tick is a `number` that callers keep
-- integral, so it is an integer here.
pub mod Ratio
pub mod Search
pub mod Range
use Prim.Native.Nat.{bit_and, min, max}
use ts_hsync_arb.Prelude.{
  ℕ, zero, suc, ◌*◌, ◌/◌, ◌%◌, ◌^◌, ◌+◌, ◌-◌, Bool, true, false, not, ◌||◌, List, [], ◌∷◌, ltb,
  ◌==◌, if◌then◌else◌,
}
use ts_hsync_arb.Prelude.Int.{
  ℤ, pos, negsuc, ◌+ℤ◌, ◌-ℤ◌, neg_ℤ, abs_ℤ, ltb_ℤ, leb_ℤ, quot, rem, eqb_ℤ, floor_half, min_ℤ,
  max_ℤ,
}
use ts_hsync_arb.Prelude.Results.{
  Result, ok, err, ◌>>=◌, ◌>>◌, throw_if, div, mod_ℤ, tick_out_of_range, sqrt_price_out_of_range,
  invalid_tick_bounds, out_of_fuel,
}

abbrev pub min_tick : ℤ
min_tick = negsuc 887_271

abbrev pub max_tick : ℤ
max_tick = pos 887_272

abbrev pub min_sqrt_ratio : ℤ
min_sqrt_ratio = pos 4_295_128_739

abbrev pub max_sqrt_ratio : ℤ
max_sqrt_ratio = pos 1461446703485210103287273052203988822378723970342

abbrev pub max_uint256 : ℕ
max_uint256 = 115792089237316195423570985008687907853269984665640564039457584007913129639935

-- One `if ((absTick & mask) !== 0n) ratio = (ratio * factor) >> 128n;`
abbrev pub apply_factor : ℕ → ℕ × ℕ → ℕ → ℕ
apply_factor abs_tick (mask, factor) ratio =
    if bit_and abs_tick mask == 0 then ratio else ratio * factor / 2 ^ 128

-- The sequence of those statements.
unfoldable pub apply_factors : ℕ → List (ℕ × ℕ) → ℕ → ℕ
apply_factors abs_tick [] ratio = ratio
apply_factors abs_tick (step ∷ steps) ratio =
    apply_factors abs_tick steps (apply_factor abs_tick step ratio)

abbrev pub first_factor : ℕ
first_factor = 0xfffcb933bd6fad37aa2d162d1a594001

abbrev pub factors : List (ℕ × ℕ)
factors =
    (0x2, 0xfff97272373d413259a46990580e213a)
    ∷ (0x4, 0xfff2e50f5f656932ef12357cf3c7fdcc)
    ∷ (0x8, 0xffe5caca7e10e4e61c3624eaa0941cd0)
    ∷ (0x10, 0xffcb9843d60f6159c9db58835c926644)
    ∷ (0x20, 0xff973b41fa98c081472e6896dfb254c0)
    ∷ (0x40, 0xff2ea16466c96a3843ec78b326b52861)
    ∷ (0x80, 0xfe5dee046a99a2a811c461f1969c3053)
    ∷ (0x100, 0xfcbe86c7900a88aedcffc83b479aa3a4)
    ∷ (0x200, 0xf987a7253ac413176f2b074cf7815e54)
    ∷ (0x400, 0xf3392b0822b70005940c7a398e4b70f3)
    ∷ (0x800, 0xe7159475a2c29b7443b29c7fa6e889d9)
    ∷ (0x1000, 0xd097f3bdfd2022b8845ad8f792aa5825)
    ∷ (0x2000, 0xa9f746462d870fdf8a65dc1f90e061e5)
    ∷ (0x4000, 0x70d869a156d2a1b890bb3df62baf32f7)
    ∷ (0x8000, 0x31be135f97d08fd981231505542fcfa6)
    ∷ (0x10000, 0x9aa508b5b7a84e1c677de54f3e99bc9)
    ∷ (0x20000, 0x5d6af8dedb81196699c329225ee604)
    ∷ (0x40000, 0x2216e584f5fa1ea926041bedfe98)
    ∷ (0x80000, 0x48a170391f7dc42444e8fa2)
    ∷ []

-- The Q128.128 ratio of a tick's absolute value.
unfoldable pub ratio_of : ℕ → ℕ
ratio_of abs_tick =
    apply_factors abs_tick factors (if bit_and abs_tick 0x1 == 0 then 2 ^ 128 else first_factor)

-- getSqrtRatioAtTick
unfoldable pub get_sqrt_ratio_at_tick : ℤ → Result ℤ
get_sqrt_ratio_at_tick tick = do
  throw_if (ltb_ℤ tick min_tick || ltb_ℤ max_tick tick) tick_out_of_range
  let small = pos (ratio_of (abs_ℤ tick))
  ratio ← if ltb_ℤ (pos 0) tick then div (pos max_uint256) small else ok small
  let shifted = quot ratio (pos (2 ^ 32))
  ok (if eqb_ℤ (rem ratio (pos (2 ^ 32))) (pos 0) then shifted else shifted +ℤ pos 1)

-- normaliseTickSearchBounds
unfoldable pub normalise_tick_search_bounds : ℤ → ℤ → Result (ℤ × ℤ)
normalise_tick_search_bounds lower upper =
    let lo = max_ℤ min_tick (min_ℤ lower upper) in
    let hi = min_ℤ max_tick (max_ℤ lower upper) in
    if ltb_ℤ hi lo then err invalid_tick_bounds else ok (lo, hi)

-- The `while (lo <= hi)` loop of getTickAtSqrtRatioInRange.
unfoldable pub search_tick : ℕ → ℤ → ℤ → ℤ → Result ℤ
search_tick zero price lo hi = err out_of_fuel
search_tick (suc fuel) price lo hi = elim (leb_ℤ lo hi) [
  | true ↦
      let mid = floor_half (lo +ℤ hi) in
      get_sqrt_ratio_at_tick mid >>= λ at_mid. elim (leb_ℤ at_mid price) [
        | true ↦ search_tick fuel price (mid +ℤ pos 1) hi
        | false ↦ search_tick fuel price lo (mid -ℤ pos 1)
      ]
  | false ↦ ok hi
]

-- More rounds than there are ticks.
abbrev pub search_fuel : ℕ
search_fuel = 1_774_547

-- getTickAtSqrtRatioInRange; `whole` is the call of getTickAtSqrtRatio for a price outside the range.
unfoldable pub search_in_range : Result ℤ → ℤ → ℤ → ℤ → Result ℤ
search_in_range whole price lower upper = do
  throw_if (ltb_ℤ price min_sqrt_ratio || leb_ℤ max_sqrt_ratio price) sqrt_price_out_of_range
  (lo, hi) ← normalise_tick_search_bounds lower upper
  at_lo ← get_sqrt_ratio_at_tick lo
  at_hi ← get_sqrt_ratio_at_tick hi
  if ltb_ℤ price at_lo || ltb_ℤ at_hi price then whole else search_tick search_fuel price lo hi

-- The two functions call one another; the depth of those calls is bounded by fuel.
unfoldable pub tick_in_range : ℕ → ℤ → ℤ → ℤ → Result ℤ
tick_in_range zero price lower upper = err out_of_fuel
tick_in_range (suc depth) price lower upper =
    let whole =
      throw_if (ltb_ℤ price min_sqrt_ratio || leb_ℤ max_sqrt_ratio price) sqrt_price_out_of_range
      >> tick_in_range depth price min_tick max_tick in
    search_in_range whole price lower upper

-- getTickAtSqrtRatioInRange
pub get_tick_at_sqrt_ratio_in_range : ℤ → ℤ → ℤ → Result ℤ
get_tick_at_sqrt_ratio_in_range = tick_in_range 2

-- getTickAtSqrtRatio
unfoldable pub get_tick_at_sqrt_ratio : ℤ → Result ℤ
get_tick_at_sqrt_ratio price =
    throw_if (ltb_ℤ price min_sqrt_ratio || leb_ℤ max_sqrt_ratio price) sqrt_price_out_of_range
    >> tick_in_range 2 price min_tick max_tick
