-- ===== src/Math/Dodo/Sqrt.antt =====
-- sqrt of src/math/dodo.ts.
use native.Mathlib.Nat.{mul-le-mul, pow-le-pow_right, one-le-pow}
use native.Mathlib.Decide.{dec_le}
use ts_hsync_arb.Prelude.{
  ℕ, zero, suc, ◌+◌, ◌-◌, ◌*◌, ◌/◌, ◌^◌, ◌≤◌, ◌<◌, ◌≡◌, arith, refl, subst, false, ltb, ◌==◌,
  Bool-cases, inl, inr,
}
use ts_hsync_arb.Prelude.Int.{pos}
use ts_hsync_arb.Prelude.Results.{ok, ◌>>=◌}
use ts_hsync_arb.Prelude.Division.{lt-mul_of_div_lt, mul-le_of_le_div}
use ts_hsync_arb.Math.Dodo.{bit_length, sqrt_step, sqrt_loop, sqrt}

-- (2a + d)^2 = 4a(a + d) + d^2
four_mul-le_add : (a d : ℕ) → 4 * (a * (a + d)) ≤ (a + (a + d)) * (a + (a + d))
four_mul-le_add a d =
    let e : (a + (a + d)) * (a + (a + d)) ≡ 4 * (a * (a + d)) + d * d = grind arith in
    omega (arith, e)

four_mul-le : (a b : ℕ) → 4 * (a * b) ≤ (a + b) * (a + b)
four_mul-le a b = elim (dec_le a b) [
  | yes le ↦
      let e : a + (b - a) ≡ b = omega arith in
      subst (λ t. 4 * (a * t) ≤ (a + t) * (a + t)) e (four_mul-le_add a (b - a))
  | no gt ↦
      let e : b + (a - b) ≡ a = omega arith in
      let h = subst (λ t. 4 * (b * t) ≤ (b + t) * (b + t)) e (four_mul-le_add b (a - b)) in
      let f : a * b ≡ b * a = grind arith in
      let g : (a + b) * (a + b) ≡ (b + a) * (b + a) = grind arith in omega (arith, h, f, g)
]

next_pos : (v x : ℕ) → 2 ≤ v → 0 < x → 0 < (x + v / x) / 2
next_pos v zero h p = absurd (omega arith)
next_pos v (suc zero) h p = let e : v / 1 ≡ v = omega arith in omega (arith, e)
next_pos v (suc (suc n)) h p = omega arith

-- A Newton step never falls below the root.
step_above : (v x : ℕ) → 0 < x → v < ((x + v / x) / 2 + 1) * ((x + v / x) / 2 + 1)
step_above v x p =
    let q : ℕ = v / x in
    let m : ℕ = (x + q) / 2 in
    let up : v < (q + 1) * x = lt-mul_of_div_lt v (q + 1) p (omega arith) in
    let mean = four_mul-le x (q + 1) in
    let comm : x * (q + 1) ≡ (q + 1) * x = grind arith in
    let half : x + (q + 1) ≤ 2 * (m + 1) = omega arith in
    let wide = mul-le-mul half half in
    let double : 2 * (m + 1) * (2 * (m + 1)) ≡ 4 * ((m + 1) * (m + 1)) = grind arith in
    omega (arith, up, mean, comm, wide, double)

sqrt_step_pos : (v x : ℕ) → 0 < x → sqrt_step (pos v) (pos x) ≡ ok (pos ((x + v / x) / 2))
unfolding sqrt_step
sqrt_step_pos v x p = ground arith

sqrt_loop_lem :
    (fuel v x0 : ℕ)
    → 2 ≤ v
    → 0 < x0
    → x0 ≤ fuel
    → v < (x0 + 1) * (x0 + 1)
    → (s : ℕ) × (sqrt_loop fuel (pos v) (pos x0) (pos ((x0 + v / x0) / 2)) ≡ ok (pos s))
      × (s * s ≤ v)
      × (v < (s + 1) * (s + 1))
unfolding sqrt_loop
sqrt_loop_lem zero v x0 h p enough up = absurd (omega arith)
sqrt_loop_lem (suc fuel) v x0 h p enough up =
    let x1 : ℕ = (x0 + v / x0) / 2 in
    elim (Bool-cases (ltb x1 x0)) [
      | inr done ↦ (x0, rw (done, sqrt_loop) refl, mul-le_of_le_div v x0 p (ground arith), up)
      | inl again ↦
          let x1_pos = next_pos v x0 h p in
          let less : x1 < x0 = ground arith in
          let (s, found, low, high) =
            sqrt_loop_lem fuel v x1 h x1_pos (omega arith) (step_above v x0 p) in
          (s, rw (again, sqrt_loop) (rw (sqrt_step_pos v x1 x1_pos, ◌>>=◌) found), low, high)
    ]

bit_length-bound : (fuel n : ℕ) → n ≤ fuel → n < 2 ^ bit_length fuel n
unfolding bit_length
bit_length-bound zero n h = omega arith
bit_length-bound (suc fuel) n h = elim (Bool-cases (n == 0)) [
  | inl none_left ↦ rw (none_left, bit_length) (ground arith)
  | inr more ↦
      let rest = bit_length-bound fuel (n / 2) (ground arith) in
      rw (more, bit_length)
        (let e : 2 ^ suc (bit_length fuel (n / 2)) ≡ 2 * 2 ^ bit_length fuel (n / 2) =
            grind arith in
          omega (arith, e, rest))
]

two_pow_add : (s m : ℕ) → 2 ^ (s + m) ≡ 2 ^ s * 2 ^ m
two_pow_add s zero = let e : s + 0 ≡ s = omega arith in rw e (grind arith)
two_pow_add s (suc m) =
    let e : s + suc m ≡ suc (s + m) = omega arith in
    let rest = two_pow_add s m in rw e (grind (arith, rest))

-- The first value of x0 is not below the root.
start_above :
    (v : ℕ) → v < (2 ^ ((bit_length v v + 1) / 2) + 1) * (2 ^ ((bit_length v v + 1) / 2) + 1)
start_above v =
    let l : ℕ = bit_length v v in
    let s : ℕ = (l + 1) / 2 in
    let bits = bit_length-bound v v (omega arith) in
    let even = pow-le-pow_right {n = 2} (omega arith) {i = l} {j = s + s} (omega arith) in
    let split : 2 ^ (s + s) ≡ 2 ^ s * 2 ^ s = two_pow_add s s in
    let e : (2 ^ s + 1) * (2 ^ s + 1) ≡ 2 ^ s * 2 ^ s + (2 * 2 ^ s + 1) = grind arith in
    omega (arith, bits, even, split, e)

-- For every value that is not negative, sqrt returns the largest number whose square is at most it.
pub sqrt_floor :
    (v : ℕ) → (s : ℕ) × (sqrt (pos v) ≡ ok (pos s)) × (s * s ≤ v) × (v < (s + 1) * (s + 1))
unfolding sqrt
sqrt_floor zero = (0, refl, omega arith, omega arith)
sqrt_floor (suc zero) = (1, refl, omega arith, omega arith)
sqrt_floor (suc (suc n)) =
    let v : ℕ = suc (suc n) in
    let x0 : ℕ = 2 ^ ((bit_length v v + 1) / 2) in
    let x0_pos : 0 < x0 = one-le-pow ((bit_length v v + 1) / 2) 2 (omega arith) in
    let (s, found, low, high) =
      sqrt_loop_lem x0 v x0 (omega arith) x0_pos (omega arith) (start_above v) in
    let not_negative : ltb v 0 ≡ false = ground arith in
    let not_small : ltb v 2 ≡ false = ground arith in
    (
      s,
      rw (not_negative, sqrt) (rw not_small (rw (sqrt_step_pos v x0 x0_pos, ◌>>=◌) found)),
      low,
      high,
    )
