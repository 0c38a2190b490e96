-- ===== src/Math/Woofi/Reserve.antt =====
-- getWoofiAmountOut of src/math/woofi.ts against the reserve that it pays from.
use ts_hsync_arb.Prelude.{
  ℕ, ◌*◌, ◌/◌, ◌-◌, leb, ◌≤◌, ◌<◌, ◌≡◌, refl, ap, ◌∙◌, arith, ◌&&◌, ◌||◌, Option, none, some,
  Bool-cases, inl, inr, if◌then◌else◌,
}
use ts_hsync_arb.Prelude.Int.{ℤ, pos, negsuc, ltb_ℤ, leb_ℤ, ◌≤ℤ◌, quot}
use ts_hsync_arb.Prelude.Results.{Result, ok, ◌>>=◌}
use native.Mathlib.Nat.{mul-le-mul_left}
use ts_hsync_arb.Prelude.Division.{div-le_of_le_mul}
use ts_hsync_arb.Prelude.Keys.{Key, get}
use ts_hsync_arb.Math.Woofi.{
  BaseState, WoofiPool, or_zero, apply_woofi_fee, within_reserve, larger, fee_rate_of,
  sell_to_quote, buy_with_quote, swap_bases, get_woofi_amount_out, calc_base_amount_sell_quote,
}
use ts_hsync_arb.Math.Woofi.Signs.{
  calc_quote_amount_sell_base-Returns, calc_base_amount_sell_quote-Returns,
}

-- The call returns an amount that is not negative and, unless it is zero, at most the reserve.
abbrev pub Pays : ℤ → Result ℤ → Type 0
Pays reserve r = (a : ℕ) × (r ≡ ok (pos a)) × (0 < a → pos a ≤ℤ reserve)

-- The reserve of a base token, zero where the pool has no state of it.
abbrev pub reserve_of : Option BaseState → ℤ
reserve_of none = pos 0
reserve_of (some s) = or_zero s.reserve

Pays-nothing : (reserve : ℤ) → Pays reserve (ok (pos 0))
Pays-nothing reserve = (0, refl, λ h. absurd (omega arith))

within_reserve-Pays : (reserve : ℤ) (n : ℕ) → Pays reserve (ok (within_reserve reserve (pos n)))
within_reserve-Pays reserve n = elim (Bool-cases (ltb_ℤ (pos 0) reserve && leb_ℤ (pos n) reserve)) [
  | inl fits ↦ (n, rw fits refl, λ h. ground (arith, fits))
  | inr over ↦ (0, rw over refl, λ h. absurd (omega arith))
]

fee_nonneg : (n : ℕ) (rate : ℤ) → (m : ℕ) × (apply_woofi_fee (pos n) rate ≡ pos m)
fee_nonneg n (negsuc r) = (0, ground arith)
fee_nonneg n (pos r) = elim (Bool-cases (leb 100_000 r)) [
  | inl all ↦ (0, ground (arith, all))
  | inr part ↦
      let below : r ≤ 100_000 = ground (arith, part) in
      let least : n * r / 100_000 ≤ n =
        div-le_of_le_mul (n * r) n (omega arith) (mul-le-mul_left n below) in
      (if leb n 0 then 0 else n - n * r / 100_000, ground (arith, least, part))
]

sell_to_quote-Pays :
    (s : Option BaseState) (reserve amount : ℤ) → Pays reserve (sell_to_quote s reserve amount)
sell_to_quote-Pays none reserve amount = Pays-nothing reserve
sell_to_quote-Pays (some s) reserve amount =
    let (gross, e) = calc_quote_amount_sell_base-Returns s amount none in
    let (net, f) = fee_nonneg gross (or_zero s.fee_rate) in
    let (a, g, h) = within_reserve-Pays reserve net in
    (
      a,
      ap (λ r. r >>= λ q. ok (within_reserve reserve (apply_woofi_fee q (or_zero s.fee_rate)))) e
          ∙ ap (λ m. ok (within_reserve reserve m)) f
          ∙ g,
      h,
    )

buy_with_quote-Pays :
    (s : Option BaseState) (amount : ℤ) → Pays (reserve_of s) (buy_with_quote s amount)
buy_with_quote-Pays none amount = Pays-nothing (pos 0)
buy_with_quote-Pays (some s) amount =
    let (out, e) =
      calc_base_amount_sell_quote-Returns s (apply_woofi_fee amount (or_zero s.fee_rate)) none in
    let (a, g, h) = within_reserve-Pays (or_zero s.reserve) out in
    (a, ap (λ r. r >>= λ b. ok (within_reserve (or_zero s.reserve) b)) e ∙ g, h)

swap_bases-Pays :
    (sell buy : Option BaseState) (amount : ℤ) → Pays (reserve_of buy) (swap_bases sell buy amount)
swap_bases-Pays none buy amount = Pays-nothing (reserve_of buy)
swap_bases-Pays (some sell) none amount = Pays-nothing (pos 0)
swap_bases-Pays (some sell) (some buy) amount =
    let spread = some (quot (larger (or_zero sell.spread) (or_zero buy.spread)) (pos 2)) in
    let rate = larger (fee_rate_of (some sell)) (fee_rate_of (some buy)) in
    let (quote, e) = calc_quote_amount_sell_base-Returns sell amount spread in
    let (out, f) =
      calc_base_amount_sell_quote-Returns buy (apply_woofi_fee (pos quote) rate) spread in
    let (a, g, h) = within_reserve-Pays (or_zero buy.reserve) out in
    (
      a,
      ap
            (λ r. r >>= λ q.
              calc_base_amount_sell_quote buy (apply_woofi_fee q rate) spread >>= λ b.
              ok (within_reserve (or_zero buy.reserve) b))
            e
          ∙ ap (λ r. r >>= λ b. ok (within_reserve (or_zero buy.reserve) b)) f
          ∙ g,
      h,
    )

module _ {K : Type 0} ⦃key : Key K⦄ where
  -- The reserve of a token of the pool.
  abbrev pub pool_reserve : WoofiPool K → K → K → ℤ
  pool_reserve pool quote_token token =
      if key.same token quote_token
      then or_zero pool.quote_reserve
      else reserve_of (get token pool.base_states)

  -- In a pool with a quote token, getWoofiAmountOut never throws, whatever the states of the tokens; its amount
  -- is not negative, and is at most the reserve of the token bought, unless it is zero.
  pub get_woofi_amount_out-Pays :
      (pool : WoofiPool K) (amount : ℤ) (token_in token_out quote_token : K)
      → pool.quote_token ≡ some quote_token
      → Pays
          (pool_reserve pool quote_token token_out)
          (get_woofi_amount_out pool amount (some token_in) (some token_out))
  unfolding get_woofi_amount_out
  get_woofi_amount_out-Pays pool amount token_in token_out quote_token is =
      elim (Bool-cases (leb_ℤ amount (pos 0) || key.same token_in token_out)) [
        | inl idle ↦ rw is (rw idle (Pays-nothing (pool_reserve pool quote_token token_out)))
        | inr swaps ↦ elim (Bool-cases (key.same token_out quote_token)) [
          | inl sells ↦ rw is (
              rw swaps (
                rw sells (
                  sell_to_quote-Pays (get token_in pool.base_states) (or_zero pool.quote_reserve)
                    amount)))
          | inr not_quote ↦ elim (Bool-cases (key.same token_in quote_token)) [
            | inl buys ↦ rw is (
                rw swaps (
                  rw not_quote
                    (rw buys (buy_with_quote-Pays (get token_out pool.base_states) amount))))
            | inr bases ↦ rw is (
                rw swaps (
                  rw not_quote (
                    rw bases (
                      swap_bases-Pays (get token_in pool.base_states)
                        (get token_out pool.base_states) amount))))
          ]
        ]
      ]
