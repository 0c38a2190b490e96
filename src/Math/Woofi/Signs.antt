-- ===== src/Math/Woofi/Signs.antt =====
-- The quotes of src/math/woofi.ts do not throw, and are not negative.
use ts_hsync_arb.Prelude.{
  ℕ, zero, suc, ◌/◌, ap, ◌∙◌, ◌≡◌, refl, arith, Bool, true, false, not, ◌||◌, Option, ◌==◌,
  Bool-cases, inl, inr, if◌then◌else◌,
}
use ts_hsync_arb.Prelude.Int.{
  ℤ, pos, negsuc, ◌+ℤ◌, ◌-ℤ◌, ◌*ℤ◌, ◌≤ℤ◌, ◌<ℤ◌, quot, int_laws, lt_of_leb, lt_of_ltb,
}
use ts_hsync_arb.Prelude.Results.{Result, ok, ◌>>=◌, div}
use ts_hsync_arb.Math.Woofi.{
  BaseState, woofi_one, has_positive_swap_factor, unquotable, above_limit, scaled,
  calc_quote_amount_sell_base, calc_base_amount_sell_quote, or_zero, or_one, spread_of,
}

-- The call returns a value that is not negative.
abbrev pub Returns : Result ℤ → Type 0
Returns r = (n : ℕ) × (r ≡ ok (pos n))

div_total : (a b : ℤ) → pos 0 <ℤ b → (q : ℤ) × (div a b ≡ ok q)
div_total a (pos zero) h = absurd (omega arith)
div_total a (pos (suc b)) h =
    let some_divisor : (suc b == 0) ≡ false = ground arith in
    (quot a (pos (suc b)), rw some_divisor refl)
div_total a (negsuc b) h = absurd (omega arith)

div-Returns : (a b : ℤ) → pos 0 ≤ℤ a → pos 0 <ℤ b → Returns (div a b)
div-Returns (pos a) (pos zero) h h' = absurd (omega arith)
div-Returns (pos a) (pos (suc b)) h h' =
    let some_divisor : (suc b == 0) ≡ false = ground arith in (a / suc b, rw some_divisor refl)
div-Returns (pos a) (negsuc b) h h' = absurd (omega arith)
div-Returns (negsuc a) b h h' = absurd (omega arith)

mul_nonneg : (a b : ℤ) → pos 0 ≤ℤ a → pos 0 ≤ℤ b → pos 0 ≤ℤ (a *ℤ b)
mul_nonneg (pos a) (pos b) h h' = omega arith
mul_nonneg (pos a) (negsuc b) h h' = absurd (omega arith)
mul_nonneg (negsuc a) b h h' = absurd (omega arith)

-- What the guards of both quotes leave.
record Quotable (s : BaseState) (amount : ℤ) : Type 0 where
  amount_pos : pos 0 <ℤ amount
  price_pos : pos 0 <ℤ or_zero s.price
  base_pos : pos 0 <ℤ or_one s.base_dec
  quote_pos : pos 0 <ℤ or_one s.quote_dec
  price_dec_pos : pos 0 <ℤ or_one s.price_dec

quotable : (s : BaseState) (amount : ℤ) → unquotable s amount ≡ false → Quotable s amount
quotable s amount h = record {
  amount_pos = lt_of_leb amount (pos 0) (ground (arith, h));
  price_pos = lt_of_leb (or_zero s.price) (pos 0) (ground (arith, h));
  base_pos = lt_of_leb (or_one s.base_dec) (pos 0) (ground (arith, h));
  quote_pos = lt_of_leb (or_one s.quote_dec) (pos 0) (ground (arith, h));
  price_dec_pos = lt_of_leb (or_one s.price_dec) (pos 0) (ground (arith, h));
}

factor_nonneg :
    (gamma spread : ℤ)
    → has_positive_swap_factor gamma spread ≡ true
    → pos 0 ≤ℤ (woofi_one -ℤ gamma -ℤ spread)
factor_nonneg gamma spread h =
    let below = lt_of_ltb (gamma +ℤ spread) woofi_one (ground (arith, h)) in omega int_laws

scaled-Returns :
    (amount gamma spread dec : ℤ)
    → pos 0 ≤ℤ amount
    → has_positive_swap_factor gamma spread ≡ true
    → pos 0 <ℤ dec
    → Returns (scaled amount gamma spread dec)
scaled-Returns amount gamma spread dec h factor d =
    let top =
      mul_nonneg amount (woofi_one -ℤ gamma -ℤ spread) h (factor_nonneg gamma spread factor) in
    let (q, e) =
      div-Returns (amount *ℤ (woofi_one -ℤ gamma -ℤ spread)) woofi_one top (omega arith) in
    let (n, e') = div-Returns (pos q) dec (omega arith) d in
    (n, ap (λ r. r >>= λ q. div q dec) e ∙ e')

-- The last test of both quotes.
abbrev pub bounded_factor : BaseState → ℤ → ℤ → Bool
bounded_factor s gamma spread =
    above_limit (or_zero s.max_gamma) gamma || not (has_positive_swap_factor gamma spread)

finish-Returns :
    (s : BaseState) (gamma spread top bottom dec : ℤ)
    → pos 0 ≤ℤ top
    → pos 0 <ℤ bottom
    → pos 0 <ℤ dec
    → Returns (
        if bounded_factor s gamma spread
        then ok (pos 0)
        else (div top bottom >>= λ value. scaled value gamma spread dec))
finish-Returns s gamma spread top bottom dec h b d =
    elim (Bool-cases (bounded_factor s gamma spread)) [
      | inl out ↦ (0, rw out refl)
      | inr in_bounds ↦
          let (value, e) = div-Returns top bottom h b in
          let (n, e') =
            scaled-Returns (pos value) gamma spread dec (omega arith) (ground (arith, in_bounds))
              d in
          (n, rw in_bounds (ap (λ r. r >>= λ v. scaled v gamma spread dec) e ∙ e'))
    ]

-- calcBaseAmountSellQuote from its second test on.
abbrev after_gamma : BaseState → ℤ → ℤ → ℤ → Result ℤ
after_gamma s spread amount gamma =
    if bounded_factor s gamma spread
    then ok (pos 0)
    else (div (amount *ℤ or_one s.base_dec *ℤ or_one s.price_dec) (or_zero s.price) >>= λ value.
        scaled value gamma spread (or_one s.quote_dec))

pub calc_base_amount_sell_quote-Returns :
    (s : BaseState) (amount : ℤ) (override : Option ℤ)
    → Returns (calc_base_amount_sell_quote s amount override)
unfolding calc_base_amount_sell_quote
calc_base_amount_sell_quote-Returns s amount override =
    elim (Bool-cases (unquotable s amount || above_limit (or_zero s.max_notional_swap) amount)) [
      | inl out ↦ (0, rw out refl)
      | inr good ↦
          let q = quotable s amount (ground (arith, good)) in
          let (gamma, e) = div_total (amount *ℤ or_zero s.coeff) (or_one s.quote_dec) q.quote_pos in
          let spread = spread_of s override in
          let top =
            mul_nonneg (amount *ℤ or_one s.base_dec) (or_one s.price_dec)
              (mul_nonneg amount (or_one s.base_dec) (omega (arith, q.amount_pos))
                (omega (arith, q.base_pos)))
              (omega (arith, q.price_dec_pos)) in
          let (n, e') =
            finish-Returns s gamma spread (amount *ℤ or_one s.base_dec *ℤ or_one s.price_dec)
              (or_zero s.price) (or_one s.quote_dec) top q.price_pos q.quote_pos in
          (n, rw good (ap (λ r. r >>= λ g. after_gamma s spread amount g) e ∙ e'))
    ]

-- calcQuoteAmountSellBase from its second and from its third test on.
abbrev after_price : BaseState → ℤ → ℤ → ℤ → Result ℤ
after_price s spread amount gamma =
    if bounded_factor s gamma spread
    then ok (pos 0)
    else (div (amount *ℤ or_zero s.price *ℤ or_one s.quote_dec) (or_one s.price_dec) >>= λ value.
        scaled value gamma spread (or_one s.base_dec))

abbrev after_notional : BaseState → ℤ → ℤ → ℤ → Result ℤ
after_notional s spread amount notional =
    if above_limit (or_zero s.max_notional_swap) notional
    then ok (pos 0)
    else (div (amount *ℤ or_zero s.price *ℤ or_zero s.coeff) (or_one s.price_dec) >>= λ in_price.
        div in_price (or_one s.base_dec) >>= λ gamma. after_price s spread amount gamma)

after_notional-Returns :
    (s : BaseState) (spread amount notional : ℤ)
    → Quotable s amount
    → Returns (after_notional s spread amount notional)
after_notional-Returns s spread amount notional q =
    elim (Bool-cases (above_limit (or_zero s.max_notional_swap) notional)) [
      | inl out ↦ (0, rw out refl)
      | inr good ↦
          let (in_price, e) =
            div_total (amount *ℤ or_zero s.price *ℤ or_zero s.coeff) (or_one s.price_dec)
              q.price_dec_pos in
          let (gamma, e') = div_total in_price (or_one s.base_dec) q.base_pos in
          let top =
            mul_nonneg (amount *ℤ or_zero s.price) (or_one s.quote_dec)
              (mul_nonneg amount (or_zero s.price) (omega (arith, q.amount_pos))
                (omega (arith, q.price_pos)))
              (omega (arith, q.quote_pos)) in
          let (n, e'') =
            finish-Returns s gamma spread (amount *ℤ or_zero s.price *ℤ or_one s.quote_dec)
              (or_one s.price_dec) (or_one s.base_dec) top q.price_dec_pos q.base_pos in
          (
            n,
            rw good (
                ap
                  (λ r. r >>= λ p. div p (or_one s.base_dec) >>= λ g. after_price s spread amount g)
                  e
                ∙ ap (λ r. r >>= λ g. after_price s spread amount g) e'
                ∙ e''),
          )
    ]

pub calc_quote_amount_sell_base-Returns :
    (s : BaseState) (amount : ℤ) (override : Option ℤ)
    → Returns (calc_quote_amount_sell_base s amount override)
unfolding calc_quote_amount_sell_base
calc_quote_amount_sell_base-Returns s amount override = elim (Bool-cases (unquotable s amount)) [
  | inl out ↦ (0, rw out refl)
  | inr good ↦
      let q = quotable s amount good in
      let (in_base, e) =
        div_total (amount *ℤ or_zero s.price *ℤ or_one s.quote_dec) (or_one s.base_dec)
          q.base_pos in
      let (notional, e') = div_total in_base (or_one s.price_dec) q.price_dec_pos in
      let spread = spread_of s override in
      let (n, e'') = after_notional-Returns s spread amount notional q in
      (
        n,
        rw good (
            ap
              (λ r. r >>= λ b. div b (or_one s.price_dec) >>= λ v. after_notional s spread amount v)
              e
            ∙ ap (λ r. r >>= λ v. after_notional s spread amount v) e'
            ∙ e''),
      )
]
