-- ===== src/Math/Curve.antt =====
-- src/math/curve.ts: the StableSwap invariant, its output balance, and the two quotes. A value that the
-- code converts by BigInt enters as an option, `none` where the conversion throws.
pub mod NewtonY
pub mod Quote
use ts_hsync_arb.Prelude.{
  ℕ, zero, suc, ◌^◌, ◌<◌, Bool, true, false, not, ◌&&◌, ◌||◌, Option, none, some, List, [], ◌∷◌,
  ltb, leb, ◌==◌, length, get_elem?, if◌then◌else◌, map,
}
use ts_hsync_arb.Prelude.Int.{ℤ, pos, ◌+ℤ◌, ◌-ℤ◌, ◌*ℤ◌, abs_ℤ, ltb_ℤ, leb_ℤ, eqb_ℤ}
use ts_hsync_arb.Prelude.Number.{Number, whole, other}
use ts_hsync_arb.Prelude.Results.{Result, ok, err, ◌>>=◌, ◌>>◌, div}

abbrev pub precision : ℤ
precision = pos (10 ^ 18)

abbrev pub fee_denominator : ℤ
fee_denominator = pos (10 ^ 10)

abbrev pub a_precision : ℤ
a_precision = pos 100

abbrev pub max_iterations : ℕ
max_iterations = 255

-- `a > b ? a - b : b - a`
abbrev pub distance : ℤ → ℤ → ℤ
distance a b = if ltb_ℤ b a then a -ℤ b else b -ℤ a

abbrev pub sum_ℤ : List ℤ → ℤ
sum_ℤ [] = pos 0
sum_ℤ (x ∷ xs) = x +ℤ sum_ℤ xs

-- The inner loop of getD: D_P = (D_P * D) / (x * n) for each balance.
pub d_product : List ℤ → ℤ → ℤ → ℤ → Result ℤ
d_product [] n d d_p = ok d_p
d_product (x ∷ xs) n d d_p = div (d_p *ℤ d) (x *ℤ n) >>= d_product xs n d

-- The Newton loop of getD, by the iterations left.
pub d_loop : ℕ → List ℤ → ℤ → ℤ → ℤ → ℤ → Result ℤ
d_loop zero xp n ann s d = ok d
d_loop (suc i) xp n ann s d = d_product xp n d d >>= λ d_p.
    div (ann *ℤ s) a_precision >>= λ weighted.
    div ((ann -ℤ a_precision) *ℤ d) a_precision >>= λ below.
    div ((weighted +ℤ d_p *ℤ n) *ℤ d) (below +ℤ (n +ℤ pos 1) *ℤ d_p) >>= λ next.
    elim (leb_ℤ (distance next d) (pos 1)) [ true ↦ ok next | false ↦ d_loop i xp n ann s next ]

-- getD
pub get_d : List ℤ → ℤ → Result ℤ
get_d xp a =
    let n = pos (length xp) in
    let s = sum_ℤ xp in
    if eqb_ℤ s (pos 0) then ok (pos 0) else d_loop max_iterations xp n (a *ℤ n) s s

-- The first loop of getY: the sum of the balances but the output's, and C, from index `k` on.
pub y_terms : List ℤ → ℕ → ℤ → ℕ → ℕ → ℤ → ℤ → ℤ → ℤ → Result (ℤ × ℤ)
y_terms [] k x i j n d s c = ok (s, c)
y_terms (b ∷ xp) k x i j n d s c =
    if k == i
    then (do c' ← div (c *ℤ d) (x *ℤ n); y_terms xp (suc k) x i j n d (s +ℤ x) c')
    else if k == j
    then y_terms xp (suc k) x i j n d s c
    else (do c' ← div (c *ℤ d) (b *ℤ n); y_terms xp (suc k) x i j n d (s +ℤ b) c')

-- The Newton loop of getY.
pub y_loop : ℕ → ℤ → ℤ → ℤ → ℤ → Result ℤ
y_loop zero c b d y = ok y
y_loop (suc iter) c b d y = div (y *ℤ y +ℤ c) (pos 2 *ℤ y +ℤ b -ℤ d) >>= λ next.
    elim (leb_ℤ (distance next y) (pos 1)) [ true ↦ ok next | false ↦ y_loop iter c b d next ]

-- getY
pub get_y : ℤ → ℕ → ℕ → List ℤ → ℤ → ℤ → Result ℤ
get_y x i j xp a d = do
  let n = pos (length xp)
  let ann = a *ℤ n
  (s, c) ← y_terms xp 0 x i j n d (pos 0) d
  c' ← div (c *ℤ d *ℤ a_precision) (ann *ℤ n)
  share ← div (d *ℤ a_precision) ann
  y_loop max_iterations c' (s +ℤ share) d d

-- toXp, for arrays of one length
pub to_xp : List ℤ → List ℤ → Result (List ℤ)
to_xp [] rates = ok []
to_xp (b ∷ bs) [] = ok []
to_xp (b ∷ bs) (r ∷ rates) = do x ← div (b *ℤ r) precision; xs ← to_xp bs rates; ok (x ∷ xs)

-- toBigIntArray, on an array of conversions
pub to_big_int_array : List (Option ℤ) → Option (List ℤ)
to_big_int_array [] = some []
to_big_int_array (none ∷ vs) = none
to_big_int_array (some v ∷ vs) =
    let rest = to_big_int_array vs in
    if ltb_ℤ v (pos 0) then none else elim rest [ none ↦ none | some out ↦ some (v ∷ out) ]

abbrev pub array_or_none : Option (List (Option ℤ)) → Option (List ℤ)
array_or_none none = none
array_or_none (some vs) = to_big_int_array vs

-- toPositiveBigInt
abbrev pub to_positive_big_int : Option ℤ → Option ℤ
to_positive_big_int none = none
to_positive_big_int (some v) = if ltb_ℤ (pos 0) v then some v else none

-- toNonNegativeBigInt
abbrev pub to_non_negative_big_int : Option ℤ → Option ℤ
to_non_negative_big_int none = none
to_non_negative_big_int (some v) = if leb_ℤ (pos 0) v then some v else none

-- hasValidCurveIndexes: the indexes as numbers of an array, if they are good.
abbrev pub valid_curve_indexes : ℕ → Number → Number → Option (ℕ × ℕ)
valid_curve_indexes n (whole i) (whole j) =
    if leb_ℤ (pos 0) i
      && (leb_ℤ (pos 0) j && (ltb_ℤ i (pos n) && (ltb_ℤ j (pos n) && not (eqb_ℤ i j))))
    then some (abs_ℤ i, abs_ℤ j)
    else none
valid_curve_indexes n _ _ = none

abbrev pub at : List ℤ → ℕ → ℤ
at [] i = pos 0
at (x ∷ xs) zero = x
at (x ∷ xs) (suc i) = at xs i

abbrev pub all_positive : List ℤ → Bool
all_positive [] = true
all_positive (x ∷ xs) = ltb_ℤ (pos 0) x && all_positive xs

pub record CurvePool : Type 0 where
  pub balances : Option (List (Option ℤ))
  pub rates : Option (List (Option ℤ))
  pub fee : Option ℤ
  pub a : Option ℤ

-- The pool after its conversions and guards: balances, rates, fee, amplification and indexes.
pub record CurveInput : Type 0 where
  pub balances : List ℤ
  pub rates : List ℤ
  pub fee : ℤ
  pub a : ℤ
  pub i : ℕ
  pub j : ℕ

abbrev pub checked_input : List ℤ → List ℤ → ℤ → ℤ → Number → Number → Option CurveInput
checked_input balances rates fee a token_in token_out =
    if ltb (length balances) 2 || not (length rates == length balances)
    then none
    else elim (valid_curve_indexes (length balances) token_in token_out) [
      | none ↦ none
      | some (i, j) ↦
          if not (all_positive balances) || (not (all_positive rates) || leb_ℤ fee_denominator fee)
          then none
          else some (record { balances = balances; rates = rates; fee = fee; a = a; i = i; j = j })
    ]

abbrev pub curve_input : CurvePool → Number → Number → Option CurveInput
curve_input pool token_in token_out = elim (array_or_none pool.balances) [
  | none ↦ none
  | some balances ↦ elim (array_or_none pool.rates) [
    | none ↦ none
    | some rates ↦ elim (to_non_negative_big_int pool.fee) [
      | none ↦ none
      | some fee ↦ elim (to_positive_big_int pool.a) [
        | none ↦ none
        | some a ↦ checked_input balances rates fee a token_in token_out
      ]
    ]
  ]
]

-- The end of getCurveAmountOut, from the output balance `y` on.
pub quote_from_y : ℤ → ℤ → ℤ → ℤ → Result ℤ
quote_from_y x_out y fee rate =
    let dy = x_out -ℤ y -ℤ pos 1 in
    if leb_ℤ dy (pos 0) then ok (pos 0) else (do
      fee_amount ← div (dy *ℤ fee) fee_denominator
      let after_fee = dy -ℤ fee_amount
      if leb_ℤ after_fee (pos 0) then ok (pos 0) else div (after_fee *ℤ precision) rate)

-- The arithmetic of getCurveAmountOut on a checked pool.
pub quote_checked : ℤ → CurveInput → Result ℤ
quote_checked amount_in p = do
  xp ← to_xp p.balances p.rates
  if not (all_positive xp) then ok (pos 0) else (do
    d ← get_d xp p.a
    if leb_ℤ d (pos 0) then ok (pos 0) else (do
      scaled ← div (amount_in *ℤ at p.rates p.i) precision
      y ← get_y (at xp p.i +ℤ scaled) p.i p.j xp p.a d
      quote_from_y (at xp p.j) y p.fee (at p.rates p.j)))

-- getCurveAmountOut
pub get_curve_amount_out : ℤ → CurvePool → Number → Number → Result ℤ
get_curve_amount_out amount_in pool token_in token_out =
    if leb_ℤ amount_in (pos 0) then ok (pos 0) else elim (curve_input pool token_in token_out) [
      | none ↦ ok (pos 0)
      | some p ↦ quote_checked amount_in p
    ]
