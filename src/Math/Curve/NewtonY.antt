-- ===== src/Math/Curve/NewtonY.antt =====
-- The Newton loop of getY in src/math/curve.ts on numbers: its divisor round by round.
use native.Mathlib.Nat.{mul-le-mul_right, mul-le-mul}
use native.Mathlib.Decide.{dec_lt}
use ts_hsync_arb.Prelude.{
  ℕ, zero, suc, ◌+◌, ◌-◌, ◌*◌, ◌/◌, ◌≤◌, ◌<◌, ◌≡◌, ◌⊎◌, inl, inr, arith, ap, refl, true, Bool-cases,
}
use ts_hsync_arb.Prelude.Int.{pos, leb_ℤ, ◌*ℤ◌, ◌+ℤ◌, ◌-ℤ◌}
use ts_hsync_arb.Prelude.Results.{ok, div, ◌>>=◌}
use ts_hsync_arb.Prelude.Division.{lt-mul_of_div_lt}
use ts_hsync_arb.Math.Curve.{y_loop, distance}

double-le_square : (y : ℕ) → 2 * y ≤ y * y + 1
double-le_square zero = omega arith
double-le_square (suc k) = omega arith

fourfold-le_square : (m : ℕ) → 4 * m ≤ m * m + 4
fourfold-le_square zero = omega arith
fourfold-le_square (suc zero) = omega arith
fourfold-le_square (suc (suc k)) = omega arith

below_two : (y : ℕ) → y * y < 2 * y → y < 2
below_two y h = elim (dec_lt y 2) [
  | yes p ↦ p
  | no p ↦ absurd (omega (arith, mul-le-mul_right {m = 2} {n = y} y (omega arith)))
]

-- If the divisor is `m` and `b` falls short of `d` by `e`, the next divisor is positive.
newton_stays : (y c m e q : ℕ) → 2 * y ≡ m + e → 0 < e → y * y + c < (q + 1) * m → e < 2 * q
newton_stays y c m e q split e_pos short = elim (dec_lt e (2 * q)) [
  | yes p ↦ p
  | no p ↦
      let room = mul-le-mul_right {m = 2 * (q + 1)} {n = e + 2} m (omega arith) in
      let squares : 2 * y * (2 * y) ≡ (m + e) * (m + e) = ap (λ (t : ℕ). t * t) split in
      let tight : e * e < 4 = omega (arith, fourfold-le_square m) in
      let one : e ≡ 1 = elim (dec_lt e 2) [
        | yes small ↦ omega arith
        | no large ↦
            let large' : 2 ≤ e = omega arith in
            absurd (omega (arith, mul-le-mul {n₁ = 2} {m₁ = 2} large' large'))
      ] in
      let none_left : q ≡ 0 = omega arith in
      let last : y * y + c < m = omega (arith, ap (λ (t : ℕ). (t + 1) * m) none_left) in
      absurd (omega (arith, double-le_square y))
]

-- One round: the next divisor is positive too, or the round is the last.
newton_round :
    (y c b d q : ℕ)
    → d < 2 * y + b
    → q ≡ (y * y + c) / (2 * y + b - d)
    → (d < 2 * q + b) ⊎ (leb_ℤ (distance (pos q) (pos y)) (pos 1) ≡ true)
newton_round y c b d q up is_q =
    let m : ℕ = 2 * y + b - d in
    let short : y * y + c < (q + 1) * m =
      lt-mul_of_div_lt (y * y + c) (q + 1) {d = m} (omega arith) (omega arith) in
    elim (dec_lt d (2 * q + b)) [
      | yes p ↦ inl p
      | no p ↦ elim (dec_lt b d) [
        | yes less ↦
            absurd (omega (arith, newton_stays y c m (d - b) q (omega arith) (omega arith) short))
        | no more ↦
            let none_left : q ≡ 0 = omega arith in
            let last : y * y + c < m = omega (arith, ap (λ (t : ℕ). (t + 1) * m) none_left) in
            let small : y < 2 = below_two y (omega arith) in inr (ground arith)
      ]
    ]

pub y_loop_total :
    (fuel c b d y : ℕ)
    → d < 2 * y + b
    → (r : ℕ) × (y_loop fuel (pos c) (pos b) (pos d) (pos y) ≡ ok (pos r))
unfolding y_loop
y_loop_total zero c b d y up = (y, refl)
y_loop_total (suc fuel) c b d y up =
    let q : ℕ = (y * y + c) / (2 * y + b - d) in
    let step : div (pos y *ℤ pos y +ℤ pos c) (pos 2 *ℤ pos y +ℤ pos b -ℤ pos d) ≡ ok (pos q) =
      ground arith in
    elim (Bool-cases (leb_ℤ (distance (pos q) (pos y)) (pos 1))) [
      | inl near ↦ (q, rw (step, ◌>>=◌) (rw near refl))
      | inr far ↦ elim (newton_round y c b d q up refl) [
        | inl again ↦
            let (r, e) = y_loop_total fuel c b d q again in (r, rw (step, ◌>>=◌) (rw far e))
        | inr near ↦ cc
      ]
    ]
