-- ===== src/Math/UniswapV2/Product.antt =====
-- src/math/uniswap_v2.ts: the constant product under the fee, the two quotes against one another, and
-- the order of quotes.
use native.Mathlib.Nat.{mul-le-mul_right, mul-lt-mul_of_pos_right, one-le-mul}
use ts_hsync_arb.Prelude.{
  ℕ, ◌+◌, ◌-◌, ◌*◌, ◌/◌, ◌≤◌, ◌<◌, ◌≡◌, arith, ap, refl, true, false, Bool-cases, inl, inr,
}
use ts_hsync_arb.Prelude.Int.{ℤ, pos, negsuc, leb_ℤ, ◌≤ℤ◌}
use ts_hsync_arb.Prelude.Results.{ok}
use ts_hsync_arb.Prelude.Division.{
  mul-le_of_le_div, le-div_of_mul_le, lt-mul_of_div_lt, div-le_of_le_mul, div-lt_of_lt_mul,
}
use ts_hsync_arb.Math.UniswapV2.{get_v2_amount_out, get_v2_amount_in, no_pool}
use ts_hsync_arb.Math.UniswapV2.Laws.{
  out_of, in_for, base_pos, get_v2_amount_out_total, get_v2_amount_out_pos, get_v2_amount_in_pos,
}

-- `y * r / (x + y)`: how much of a reserve `r` an input of weight `y` buys from a reserve of weight `x`.
module _ (x y r : ℕ) (x_pos : 0 < x) where
  share-le : y * r / (x + y) * (x + y) ≤ y * r
  share-le = mul-le_of_le_div (y * r) (y * r / (x + y)) (omega arith) (omega arith)

  share_next : y * r < (y * r / (x + y) + 1) * (x + y)
  share_next = lt-mul_of_div_lt (y * r) (y * r / (x + y) + 1) (omega arith) (omega arith)

  share-lt : 0 < r → y * r / (x + y) < r
  share-lt r_pos =
      div-lt_of_lt_mul (y * r) r (omega arith)
        (omega (arith, mul-lt-mul_of_pos_right {m = 0} {n = x} {k = r} x_pos r_pos))

  share_product :
      0 < r
      → let q = y * r / (x + y) in (x * r ≤ (x + y) * (r - q)) × ((x + y) * (r - (q + 1)) < x * r)
  share_product r_pos =
      let q : ℕ = y * r / (x + y) in
      let below = share-lt r_pos in
      let left : r ≡ q + (r - q) = omega arith in
      let left' : r ≡ q + 1 + (r - (q + 1)) = omega arith in
      let spread = ap (λ (t : ℕ). (x + y) * t) left in
      let spread' = ap (λ (t : ℕ). (x + y) * t) left' in
      (omega (arith, share-le), omega (arith, share_next))

-- A heavier input buys no less.
share_mono : (x y z r : ℕ) → 0 < x → y ≤ z → y * r / (x + y) ≤ z * r / (x + z)
share_mono x y z r x_pos le =
    let p : ℕ = y * r / (x + y) in
    let extra : ℕ = z - y in
    let more : z ≡ y + extra = omega arith in
    let p_le : p ≤ r = div-le_of_le_mul (y * r) r (omega arith) (grind arith) in
    let scaled = mul-le-mul_right extra p_le in
    let at_z : p * (x + z) ≤ z * r =
      omega (
        arith,
        share-le x y r x_pos,
        ap (λ (t : ℕ). p * (x + t)) more,
        ap (λ (t : ℕ). t * r) more,
      ) in
    le-div_of_mul_le (z * r) p (omega arith) at_z

module _ (ri ro fn fd : ℕ) (ri_pos : 0 < ri) (ro_pos : 0 < ro) (fn_pos : 0 < fn)
    (fn_lt : fn < fd) where
  -- On positive reserves and a fee fraction strictly between 0 and 1, for an input that is not negative, the
  -- quote is below the output
  -- reserve, the product of the reserves (the input counted after the fee, all scaled by the fee
  -- denominator) does not fall, and one more unit of output would make it fall.
  pub get_v2_amount_out_product :
      (a : ℕ)
      → (q : ℕ) × (get_v2_amount_out (pos a) (pos ri) (pos ro) (pos fn) (pos fd) ≡ ok (pos q))
        × (q < ro)
        × (ri * fd * ro ≤ (ri * fd + a * fn) * (ro - q))
        × ((ri * fd + a * fn) * (ro - (q + 1)) < ri * fd * ro)
  get_v2_amount_out_product a =
      let base = base_pos ri ro fn fd ri_pos ro_pos fn_pos fn_lt in
      let (kept, tight) = share_product (ri * fd) (a * fn) ro base ro_pos in
      (
        out_of a ri ro fn fd,
        get_v2_amount_out_pos ri ro fn fd ri_pos ro_pos fn_pos fn_lt a,
        share-lt (ri * fd) (a * fn) ro base ro_pos,
        kept,
        tight,
      )

  mono_open :
      (a b : ℕ)
      → a ≤ b
      → (p q : ℕ) × (get_v2_amount_out (pos a) (pos ri) (pos ro) (pos fn) (pos fd) ≡ ok (pos p))
        × (get_v2_amount_out (pos b) (pos ri) (pos ro) (pos fn) (pos fd) ≡ ok (pos q))
        × (p ≤ q)
  mono_open a b le =
      let base = base_pos ri ro fn fd ri_pos ro_pos fn_pos fn_lt in
      (
        out_of a ri ro fn fd,
        out_of b ri ro fn fd,
        get_v2_amount_out_pos ri ro fn fd ri_pos ro_pos fn_pos fn_lt a,
        get_v2_amount_out_pos ri ro fn fd ri_pos ro_pos fn_pos fn_lt b,
        share_mono (ri * fd) (a * fn) (b * fn) ro base (mul-le-mul_right fn le),
      )

  -- On positive reserves and a fee fraction strictly between 0 and 1, for every positive output below the
  -- output reserve, the input that getV2AmountIn asks for buys at least the output wanted.
  pub get_v2_amount_in_suffices :
      (out : ℕ)
      → 0 < out
      → out < ro
      → (a q : ℕ) × (get_v2_amount_in (pos out) (pos ri) (pos ro) (pos fn) (pos fd) ≡ ok (pos a))
        × (get_v2_amount_out (pos a) (pos ri) (pos ro) (pos fn) (pos fd) ≡ ok (pos q))
        × (out ≤ q)
  get_v2_amount_in_suffices out out_pos lt =
      let base = base_pos ri ro fn fd ri_pos ro_pos fn_pos fn_lt in
      let a : ℕ = in_for out ri ro fn fd in
      let left : ℕ = ro - out in
      let cost_pos = one-le-mul {a = left} {b = fn} (omega arith) fn_pos in
      let enough = lt-mul_of_div_lt (ri * out * fd) a {d = left * fn} cost_pos (omega arith) in
      let whole : ro ≡ out + left = omega arith in
      let spread = ap (λ (t : ℕ). a * fn * t) whole in
      (
        a,
        out_of a ri ro fn fd,
        get_v2_amount_in_pos ri ro fn fd ri_pos ro_pos fn_pos fn_lt out out_pos lt,
        get_v2_amount_out_pos ri ro fn fd ri_pos ro_pos fn_pos fn_lt a,
        le-div_of_mul_le (a * fn * ro) out (omega arith) (omega arith),
      )

no_input :
    (a ri ro fn fd : ℤ) → leb_ℤ a (pos 0) ≡ true → get_v2_amount_out a ri ro fn fd ≡ ok (pos 0)
unfolding get_v2_amount_out
no_input a ri ro fn fd h = rw h refl

refused_pool :
    (a ri ro fn fd : ℤ) → no_pool ri ro fn fd ≡ true → get_v2_amount_out a ri ro fn fd ≡ ok (pos 0)
unfolding get_v2_amount_out
refused_pool a ri ro fn fd h = elim (Bool-cases (leb_ℤ a (pos 0))) [
  | inl empty ↦ rw empty refl
  | inr some_input ↦ rw some_input (rw h refl)
]

-- The two quotes, the second not smaller.
abbrev pub Ordered : ℤ → ℤ → ℤ → ℤ → ℤ → ℤ → Type 0
Ordered a b ri ro fn fd =
    (p q : ℕ) × (get_v2_amount_out a ri ro fn fd ≡ ok (pos p))
    × (get_v2_amount_out b ri ro fn fd ≡ ok (pos q))
    × (p ≤ q)

refused_pool-Ordered : (a b ri ro fn fd : ℤ) → no_pool ri ro fn fd ≡ true → Ordered a b ri ro fn fd
refused_pool-Ordered a b ri ro fn fd h =
    (0, 0, refused_pool a ri ro fn fd h, refused_pool b ri ro fn fd h, omega arith)

open_pool-Ordered :
    (a b : ℕ) (ri ro fn fd : ℤ)
    → a ≤ b
    → no_pool ri ro fn fd ≡ false
    → Ordered (pos a) (pos b) ri ro fn fd
open_pool-Ordered a b (pos ri) (pos ro) (pos fn) (pos fd) le h =
    mono_open ri ro fn fd (ground (arith, h)) (ground (arith, h)) (ground (arith, h))
      (ground (arith, h)) a b le
open_pool-Ordered a b (negsuc ri) ro fn fd le h = absurd (ground (arith, h))
open_pool-Ordered a b (pos ri) (negsuc ro) fn fd le h = absurd (ground (arith, h))
open_pool-Ordered a b (pos ri) (pos ro) (negsuc fn) fd le h = absurd (ground (arith, h))
open_pool-Ordered a b (pos ri) (pos ro) (pos fn) (negsuc fd) le h = absurd (ground (arith, h))

-- For all integers as inputs, reserves and fee fraction, also those that getV2AmountOut refuses, a larger input
-- is quoted no smaller an output.
pub get_v2_amount_out_mono : (a b ri ro fn fd : ℤ) → a ≤ℤ b → Ordered a b ri ro fn fd
get_v2_amount_out_mono (negsuc a) b ri ro fn fd le =
    let (q, e) = get_v2_amount_out_total b ri ro fn fd in
    (0, q, no_input (negsuc a) ri ro fn fd refl, e, omega arith)
get_v2_amount_out_mono (pos a) (negsuc b) ri ro fn fd le = absurd (omega arith)
get_v2_amount_out_mono (pos a) (pos b) ri ro fn fd le = elim (Bool-cases (no_pool ri ro fn fd)) [
  | inl refused ↦ refused_pool-Ordered (pos a) (pos b) ri ro fn fd refused
  | inr open_pool ↦ open_pool-Ordered a b ri ro fn fd (omega arith) open_pool
]
