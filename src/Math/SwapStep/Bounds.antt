-- ===== src/Math/SwapStep/Bounds.antt =====
-- The arithmetic behind src/math/swap_math.ts on numbers: next prices within a range and their deltas.
use native.Mathlib.Nat.{lt_of_mul-lt-mul_right, le_of_mul-le-mul_right, mul_comm}
use ts_hsync_arb.Prelude.{ℕ, ◌+◌, ◌-◌, ◌*◌, ◌/◌, ◌≤◌, ◌<◌, ◌≡◌, arith, ap}
use ts_hsync_arb.Prelude.Division.{
  ceil_div, ceil_div-le_of_le_mul, le-mul_of_ceil_div_le, mul-lt_of_lt_ceil_div, mul-le_of_le_div,
}

-- Token 1 in: the price rises by `amount * q / l`.
module _ (l q amount : ℕ) (l_pos : 0 < l) (q_pos : 0 < q) where
  rise_pays : amount * q / l * l ≤ amount * q
  rise_pays = mul-le_of_le_div (amount * q) (amount * q / l) l_pos (omega arith)

  pub rise-lt_of_lt_cost : (gap : ℕ) → amount < ceil_div (l * gap) q → amount * q / l < gap
  rise-lt_of_lt_cost gap short =
      let room = mul-lt_of_lt_ceil_div (l * gap) amount q_pos short in
      lt_of_mul-lt-mul_right l (omega (arith, rise_pays, mul_comm l gap))

  pub rise_cost : ceil_div (l * (amount * q / l)) q ≤ amount
  rise_cost =
      ceil_div-le_of_le_mul (l * (amount * q / l)) amount q_pos
        (omega (arith, rise_pays, mul_comm l (amount * q / l)))

-- Token 0 in: the price falls to the quotient rounded up of `n * c` by `n + amount * c`.
module _ (n c amount : ℕ) (n_pos : 0 < n) (c_pos : 0 < c) where
  fall_denominator : 0 < n + amount * c
  fall_denominator = omega arith

  fall_covers : n * c ≤ ceil_div (n * c) (n + amount * c) * (n + amount * c)
  fall_covers =
      le-mul_of_ceil_div_le (n * c) (ceil_div (n * c) (n + amount * c)) fall_denominator
        (omega arith)

  pub fall-le : ceil_div (n * c) (n + amount * c) ≤ c
  fall-le = ceil_div-le_of_le_mul (n * c) c fall_denominator (grind arith)

  pub fall_pos : 0 < ceil_div (n * c) (n + amount * c)
  fall_pos =
      let covered : 0 * (n + amount * c) < ceil_div (n * c) (n + amount * c) * (n + amount * c) =
        grind (arith, fall_covers) in
      lt_of_mul-lt-mul_right (n + amount * c) covered

  pub fall-gt_of_lt_cost :
      (t : ℕ)
      → 0 < t
      → t ≤ c
      → amount < ceil_div (ceil_div (n * (c - t)) c) t
      → t < ceil_div (n * c) (n + amount * c)
  fall-gt_of_lt_cost t t_pos le short =
      let inner = mul-lt_of_lt_ceil_div (ceil_div (n * (c - t)) c) amount t_pos short in
      let room = mul-lt_of_lt_ceil_div (n * (c - t)) (amount * t) c_pos inner in
      let whole : c ≡ t + (c - t) = omega arith in
      let spread : n * c ≡ n * t + n * (c - t) = omega (arith, ap (λ (x : ℕ). n * x) whole) in
      let below : t * (n + amount * c) < n * c = omega arith in
      lt_of_mul-lt-mul_right (n + amount * c) (omega (arith, fall_covers))

  pub fall_cost :
      let next = ceil_div (n * c) (n + amount * c) in
      ceil_div (ceil_div (n * (c - next)) c) next ≤ amount
  fall_cost =
      let next = ceil_div (n * c) (n + amount * c) in
      let whole : c ≡ next + (c - next) = omega (arith, fall-le) in
      let spread : n * c ≡ n * next + n * (c - next) = omega (arith, ap (λ (x : ℕ). n * x) whole) in
      let cover : n * (c - next) ≤ amount * next * c = omega (arith, fall_covers) in
      ceil_div-le_of_le_mul (ceil_div (n * (c - next)) c) amount fall_pos
        (ceil_div-le_of_le_mul (n * (c - next)) (amount * next) c_pos cover)

-- The fee on an amount that the discounted remainder covers is covered by the whole remainder.
pub fee_covered :
    (amount remaining fee scale : ℕ)
    → fee < scale
    → amount ≤ remaining * (scale - fee) / scale
    → amount + ceil_div (amount * fee) (scale - fee) ≤ remaining
fee_covered amount remaining fee scale h le =
    let rest : ℕ = scale - fee in
    let rest_pos : 0 < rest = omega arith in
    let paid = mul-le_of_le_div (remaining * rest) amount (omega arith) le in
    let split : scale ≡ fee + rest = omega arith in
    let shares : amount * scale ≡ amount * fee + amount * rest =
      omega (arith, ap (λ (x : ℕ). amount * x) split) in
    let within : amount ≤ remaining = le_of_mul-le-mul_right (omega arith) rest_pos in
    let whole : remaining ≡ amount + (remaining - amount) = omega arith in
    let spread : remaining * rest ≡ amount * rest + (remaining - amount) * rest =
      omega (arith, ap (λ (x : ℕ). x * rest) whole) in
    let fee_le = ceil_div-le_of_le_mul (amount * fee) (remaining - amount) rest_pos (omega arith) in
    omega arith
