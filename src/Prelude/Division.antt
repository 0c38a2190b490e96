-- ===== src/Prelude/Division.antt =====
-- Division on the native numbers rounded down and up: bounds as equivalences with products, so that
-- a claim about quotients becomes one about polynomials.
use Prim.Native.Nat.{ℕ, ◌+◌, ◌*◌, ◌/◌, ◌%◌, ◌≤◌, ◌<◌}
use mathlib.Core.Path.{◌≡◌}
use native.Mathlib.Omega.{arith}
use native.Mathlib.Decide.{dec_lt}
use native.Mathlib.Nat.{
  le-div_iff_mul-le, div-lt_iff_lt-mul, div-add-mod', mod-lt, mul-le-mul_right,
}
use ts_hsync_arb.Prelude.Tests.{ltb, if◌then◌else◌}

module _ (a b : ℕ) {d : ℕ} (h : 0 < d) where
  pub mul-le_of_le_div : b ≤ a / d → b * d ≤ a
  mul-le_of_le_div = (le-div_iff_mul-le h).0

  pub le-div_of_mul_le : b * d ≤ a → b ≤ a / d
  le-div_of_mul_le = (le-div_iff_mul-le h).1

  pub lt-mul_of_div_lt : a / d < b → a < b * d
  lt-mul_of_div_lt = (div-lt_iff_lt-mul h).0

  pub div-lt_of_lt_mul : a < b * d → a / d < b
  div-lt_of_lt_mul = (div-lt_iff_lt-mul h).1

  pub div-le_of_le_mul : a ≤ b * d → a / d ≤ b
  div-le_of_le_mul p =
      let q : (b + 1) * d ≡ b * d + d = grind arith in
      let r : a / d < b + 1 = (div-lt_iff_lt-mul h).1 (omega arith) in omega arith

-- The quotient rounded up.
unfoldable pub ceil_div : ℕ → ℕ → ℕ
ceil_div a d = if ltb 0 (a % d) then a / d + 1 else a / d

module _ (a b : ℕ) {d : ℕ} (h : 0 < d) where
  pub ceil_div-le_of_le_mul : a ≤ b * d → ceil_div a d ≤ b
  unfolding ceil_div
  ceil_div-le_of_le_mul p =
      let low = div-le_of_le_mul a b h p in
      let split = div-add-mod' a d in
      let scaled = mul-le-mul_right {m = b} {n = a / d} d in ground (arith, low, split, scaled)

  pub le-mul_of_ceil_div_le : ceil_div a d ≤ b → a ≤ b * d
  unfolding ceil_div
  le-mul_of_ceil_div_le p =
      let split = div-add-mod' a d in
      let small = mod-lt a h in
      let next : (a / d + 1) * d ≡ a / d * d + d = grind arith in
      let up = mul-le-mul_right {m = a / d + 1} {n = b} d in
      let same = mul-le-mul_right {m = a / d} {n = b} d in
      ground (arith, split, small, next, up, same)

  pub mul-lt_of_lt_ceil_div : b < ceil_div a d → b * d < a
  mul-lt_of_lt_ceil_div p = elim (dec_lt (b * d) a) [
    | yes q ↦ q
    | no q ↦ absurd (omega (arith, ceil_div-le_of_le_mul (omega arith)))
  ]
