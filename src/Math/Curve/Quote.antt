-- ===== src/Math/Curve/Quote.antt =====
-- getY of src/math/curve.ts on positive balances.
use native.Mathlib.Nat.{one-le-mul}
use ts_hsync_arb.Prelude.{
  ℕ, suc, ◌+◌, ◌*◌, ◌/◌, ◌<◌, ◌≡◌, arith, refl, List, [], ◌∷◌, length, Bool-cases, inl, inr, ◌==◌,
}
use ts_hsync_arb.Prelude.Int.{ℤ, pos, ◌*ℤ◌}
use ts_hsync_arb.Prelude.Results.{ok, div, ◌>>=◌}
use ts_hsync_arb.Math.Curve.{y_terms, get_y, max_iterations}
use ts_hsync_arb.Math.Curve.NewtonY.{y_loop_total}

abbrev pub AllPositive : List ℕ → Type 0
AllPositive [] = Unit {0}
AllPositive (x ∷ xs) = (0 < x) × AllPositive xs

abbrev pub bigints : List ℕ → List ℤ
bigints [] = []
bigints (x ∷ xs) = pos x ∷ bigints xs

length-bigints : (xs : List ℕ) → length (bigints xs) ≡ length xs
length-bigints [] = refl
length-bigints (x ∷ xs) = omega (arith, length-bigints xs)

module _ (x i j n d : ℕ) (x_pos : 0 < x) (n_pos : 0 < n) where
  term : (b c : ℕ) → 0 < b → div (pos c *ℤ pos d) (pos b *ℤ pos n) ≡ ok (pos (c * d / (b * n)))
  term b c b_pos = ground (arith, one-le-mul b_pos n_pos)

  y_terms_total :
      (xs : List ℕ) (k s c : ℕ)
      → AllPositive xs
      → (s' c' : ℕ) × (y_terms (bigints xs) k (pos x) i j (pos n) (pos d) (pos s) (pos c)
          ≡ ok (pos s', pos c'))
  unfolding y_terms
  y_terms_total [] k s c h = (s, c, refl)
  y_terms_total (b ∷ xs) k s c (b_pos, h) = elim (Bool-cases (k == i)) [
    | inl input ↦
        let (s', c', e) = y_terms_total xs (suc k) (s + x) (c * d / (x * n)) h in
        (s', c', rw input (rw (term x c x_pos, ◌>>=◌) e))
    | inr elsewhere ↦ elim (Bool-cases (k == j)) [
      | inl output ↦
          let (s', c', e) = y_terms_total xs (suc k) s c h in (s', c', rw elsewhere (rw output e))
      | inr other_coin ↦
          let (s', c', e) = y_terms_total xs (suc k) (s + b) (c * d / (b * n)) h in
          (s', c', rw elsewhere (rw other_coin (rw (term b c b_pos, ◌>>=◌) e)))
    ]
  ]

-- For positive balances, a positive new input balance, amplification and invariant, getY never throws
-- and returns a balance that is not negative, for any two indexes.
pub get_y_total :
    (x i j : ℕ) (b : ℕ) (xs : List ℕ) (a d : ℕ)
    → 0 < x
    → AllPositive (b ∷ xs)
    → 0 < a
    → 0 < d
    → (y : ℕ) × (get_y (pos x) i j (bigints (b ∷ xs)) (pos a) (pos d) ≡ ok (pos y))
unfolding get_y
get_y_total x i j b xs a d x_pos h a_pos d_pos =
    let n : ℕ = length (bigints (b ∷ xs)) in
    let ann : ℕ = a * n in
    let n_pos : 0 < n = omega arith in
    let ann_pos = one-le-mul {a = a} {b = n} a_pos n_pos in
    let (s, c, terms) = y_terms_total x i j n d x_pos n_pos (b ∷ xs) 0 0 d h in
    let scaled : div (pos c *ℤ pos d *ℤ pos 100) (pos ann *ℤ pos n)
        ≡ ok (pos (c * d * 100 / (ann * n))) =
      ground (arith, one-le-mul ann_pos n_pos) in
    let share : div (pos d *ℤ pos 100) (pos ann) ≡ ok (pos (d * 100 / ann)) = ground arith in
    let (y, found) =
      y_loop_total max_iterations (c * d * 100 / (ann * n)) (s + d * 100 / ann) d d (omega arith) in
    (y, rw (terms, ◌>>=◌) (rw (scaled, ◌>>=◌) (rw (share, ◌>>=◌) found)))
