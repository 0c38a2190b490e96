-- ===== src/Math/Dodo/Quadratic.antt =====
-- solveQuadraticFunctionForTrade of src/math/dodo.ts.
use ts_hsync_arb.Prelude.{
  ℕ, zero, suc, ◌+◌, ◌-◌, ◌*◌, ◌/◌, ◌^◌, ◌≤◌, ◌<◌, ◌≡◌, ◌⊎◌, arith, refl, sym, subst, Bool, true,
  false, ltb, leb, ◌==◌, Bool-cases, inl, inr,
}
use ts_hsync_arb.Prelude.Int.{ℤ, pos, negsuc, leb_ℤ, ◌≤ℤ◌, ◌+ℤ◌, ◌-ℤ◌, ◌*ℤ◌, sub_ℕ, sub_ℕ_le}
use ts_hsync_arb.Prelude.Results.{Result, ok, ◌>>=◌}
use ts_hsync_arb.Prelude.Division.{div-le_of_le_mul}
use ts_hsync_arb.Math.Dodo.{
  untradable, solve_tradable, solve_quadratic, sqrt, trade_at_root, after_root, quadratic_b,
  mul_floor, div_ceil, one,
}
use ts_hsync_arb.Math.Dodo.Sqrt.{sqrt_floor}

-- An amount between nothing and `v1`.
abbrev Part : ℕ → ℤ → Type 0
Part v1 x = (r : ℕ) × (x ≡ pos r) × (r ≤ v1)

div_ceil_pos : (n d : ℕ) → (m : ℕ) × (div_ceil (pos n) (pos d) ≡ pos m)
div_ceil_pos n zero = (0, refl)
div_ceil_pos n (suc d) = ((n * 10 ^ 18 + suc d - 1) / suc d, ground arith)

trade_at_root-Part : (v1 n d : ℕ) → Part v1 (trade_at_root (pos v1) (pos n) (pos d))
trade_at_root-Part v1 n d =
    let (m, e) = div_ceil_pos n d in
    elim (Bool-cases (ltb v1 m)) [
      | inl over ↦ (0, rw e (rw over refl), omega arith)
      | inr within ↦ (v1 - m, rw e (rw within (sub_ℕ_le v1 m (ground arith))), omega arith)
    ]

not_small : (x : ℤ) → leb_ℤ x (pos 0) ≡ false → (n : ℕ) × (x ≡ pos n) × (0 < n)
not_small (pos n) h = (n, refl, ground arith)
not_small (negsuc n) h = absurd cc

after_root-Part :
    (v1 b root : ℕ) (k : ℤ) (negative : Bool)
    → Part v1 (after_root (pos v1) k (pos b) negative (pos root))
after_root-Part v1 b root k false = elim (Bool-cases (leb_ℤ ((one -ℤ k) *ℤ pos 2) (pos 0))) [
  | inl flat ↦ (0, rw flat refl, omega arith)
  | inr steep ↦
      let (d, at_d, _) = not_small ((one -ℤ k) *ℤ pos 2) steep in
      let (r, e, le) = trade_at_root-Part v1 (b + root) d in
      let e' = subst (λ x. trade_at_root (pos v1) (pos (b + root)) x ≡ pos r) (sym at_d) e in
      (r, rw steep (rw steep at e'), le)
]
after_root-Part v1 b root k true = elim (Bool-cases (leb_ℤ ((one -ℤ k) *ℤ pos 2) (pos 0))) [
  | inl flat ↦ (0, rw flat refl, omega arith)
  | inr steep ↦
      let (d, at_d, _) = not_small ((one -ℤ k) *ℤ pos 2) steep in
      elim (Bool-cases (leb root b)) [
        | inl none_left ↦ (0, rw steep (rw none_left refl), omega arith)
        | inr some_left ↦
            let (r, e, le) = trade_at_root-Part v1 (root - b) d in
            let e' = subst (λ x. trade_at_root (pos v1) (pos (root - b)) x ≡ pos r) (sym at_d) e in
            let left : sub_ℕ root b ≡ pos (root - b) = sub_ℕ_le root b (ground arith) in
            let e2 =
              subst (λ x. trade_at_root (pos v1) x ((one -ℤ k) *ℤ pos 2) ≡ pos r) (sym left) e' in
            (r, rw steep (rw some_left (rw steep at e2)), le)
      ]
]

quadratic_b_pos :
    (v0 v1 delta i k : ℕ)
    → k < 10 ^ 18
    → (b : ℕ) × (negative : Bool) × (quadratic_b (pos v0) (pos v1) (pos delta) (pos i) (pos k)
        ≡ (pos b, negative))
quadratic_b_pos v0 v1 delta i k lt =
    let part2 : ℕ = k * v0 / v1 * v0 + i * delta in
    let whole : ℕ = (10 ^ 18 - k) * v1 in
    let below : sub_ℕ (10 ^ 18) k ≡ pos (10 ^ 18 - k) = sub_ℕ_le (10 ^ 18) k (omega arith) in
    elim (Bool-cases (leb part2 whole)) [
      | inl small ↦ ((whole - part2) / 10 ^ 18, false, rw below (rw small refl))
      | inr large ↦ (
        (part2 - whole) / 10 ^ 18,
        true,
        (let order : leb whole part2 ≡ true = ground arith in rw below (rw large (rw order refl))),
      )
    ]

-- Nothing, or at most the reserve.
abbrev pub Bounded : ℤ → Result ℤ → Type 0
Bounded v1 outcome = (r : ℕ) × (outcome ≡ ok (pos r)) × ((r ≡ 0) ⊎ (pos r ≤ℤ v1))

solve_tradable_pos :
    (v0 v1 delta i k : ℕ)
    → k ≤ 10 ^ 18
    → Bounded (pos v1) (solve_tradable (pos v0) (pos v1) (pos delta) (pos i) (pos k))
unfolding solve_tradable
solve_tradable_pos v0 v1 delta i k pk =
    let below : sub_ℕ (10 ^ 18) k ≡ pos (10 ^ 18 - k) = sub_ℕ_le (10 ^ 18) k pk in
    elim (Bool-cases (k == 0)) [
      | inl linear ↦ elim (Bool-cases (ltb v1 (i * delta / 10 ^ 18))) [
        | inl over ↦ (v1, rw (linear, solve_tradable) ((rw over refl)), inr (omega arith))
        | inr within ↦ (
          i * delta / 10 ^ 18,
          rw (linear, solve_tradable) ((rw within refl)),
          inr (ground arith),
        )
      ]
      | inr curved ↦ elim (Bool-cases (k == 10 ^ 18)) [
        | inl full ↦
            let t : ℕ = i * delta * v1 / (v0 * v0) in
            elim (Bool-cases (i * delta == 0)) [
              | inl idle ↦ (0, rw (curved, solve_tradable) (rw full (rw idle refl)), inl refl)
              | inr busy ↦ elim (Bool-cases (t == 0)) [
                | inl idle ↦
                    (0, rw (curved, solve_tradable) (rw full (rw busy (rw idle refl))), inl refl)
                | inr heavy ↦
                    let split : v1 * (t + 10 ^ 18) ≡ v1 * t + v1 * 10 ^ 18 = grind arith in
                    let within =
                      div-le_of_le_mul (v1 * t) v1 {d = t + 10 ^ 18} (omega arith)
                        (omega (arith, split)) in
                    (
                      v1 * t / (t + 10 ^ 18),
                      rw (curved, solve_tradable) (rw full (rw busy (rw heavy refl))),
                      inr (omega (arith, within)),
                    )
              ]
            ]
        | inr mixed ↦
            let (b, negative, at_b) = quadratic_b_pos v0 v1 delta i k (ground arith) in
            let under : ℕ = (10 ^ 18 - k) * 4 * (k * v0 / 10 ^ 18 * v0) / 10 ^ 18 in
            let (root, rooted, _, _) = sqrt_floor (b * b + under) in
            let rooted' : sqrt (
                  pos b *ℤ pos b
                  +ℤ mul_floor ((one -ℤ pos k) *ℤ pos 4) (mul_floor (pos k) (pos v0) *ℤ pos v0))
                ≡ ok (pos root) =
              rw below rooted in
            let (r, e, le) = after_root-Part v1 b root (pos k) negative in
            (
              r,
              rw (curved, solve_tradable) ((rw mixed (rw at_b (rw (rooted', ◌>>=◌) (rw e refl))))),
              inr (omega (arith, le)),
            )
      ]
    ]

solve_tradable-Bounded :
    (v0 v1 delta i k : ℤ)
    → untradable v0 v1 delta i k ≡ false
    → Bounded v1 (solve_tradable v0 v1 delta i k)
solve_tradable-Bounded (pos v0) (pos v1) (pos delta) (pos i) (pos k) g =
    solve_tradable_pos v0 v1 delta i k (ground arith)
solve_tradable-Bounded (negsuc v0) v1 delta i k g = absurd (ground arith)
solve_tradable-Bounded (pos v0) (negsuc v1) delta i k g = absurd (ground arith)
solve_tradable-Bounded (pos v0) (pos v1) (negsuc delta) i k g = absurd (ground arith)
solve_tradable-Bounded (pos v0) (pos v1) (pos delta) (negsuc i) k g = absurd (ground arith)
solve_tradable-Bounded (pos v0) (pos v1) (pos delta) (pos i) (negsuc k) g = absurd (ground arith)

-- solveQuadraticFunctionForTrade returns for all arguments, with an amount that is not negative and is
-- at most the reserve V1, or zero.
pub solve_quadratic-Bounded : (v0 v1 delta i k : ℤ) → Bounded v1 (solve_quadratic v0 v1 delta i k)
unfolding solve_quadratic
solve_quadratic-Bounded v0 v1 delta i k = elim (Bool-cases (untradable v0 v1 delta i k)) [
  | inl refused ↦ (0, rw (refused, solve_quadratic) refl, inl refl)
  | inr fine ↦
      let (r, e, bound) = solve_tradable-Bounded v0 v1 delta i k fine in
      (r, rw (fine, solve_quadratic) e, bound)
]
