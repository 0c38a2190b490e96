-- ===== src/Math/UniswapV2/Laws.antt =====
-- src/math/uniswap_v2.ts: the quotes on positive reserves and a fee below 100%, as numbers.
use native.Mathlib.Nat.{one-le-mul, zero-mul, zero-div}
use ts_hsync_arb.Prelude.{
  ℕ, zero, suc, ◌+◌, ◌-◌, ◌*◌, ◌/◌, ◌<◌, ◌≡◌, arith, refl, Bool-cases, inl, inr,
}
use ts_hsync_arb.Prelude.Int.{ℤ, pos, negsuc}
use ts_hsync_arb.Prelude.Results.{ok}
use ts_hsync_arb.Math.UniswapV2.{get_v2_amount_out, get_v2_amount_in, no_pool}

abbrev pub out_of : ℕ → ℕ → ℕ → ℕ → ℕ → ℕ
out_of a ri ro fn fd = a * fn * ro / (ri * fd + a * fn)

abbrev pub in_for : ℕ → ℕ → ℕ → ℕ → ℕ → ℕ
in_for out ri ro fn fd = ri * out * fd / ((ro - out) * fn) + 1

module _ (ri ro fn fd : ℕ) (ri_pos : 0 < ri) (ro_pos : 0 < ro) (fn_pos : 0 < fn)
    (fn_lt : fn < fd) where
  pub base_pos : 0 < ri * fd
  base_pos = one-le-mul ri_pos (omega arith)

  pub get_v2_amount_out_pos :
      (a : ℕ)
      → get_v2_amount_out (pos a) (pos ri) (pos ro) (pos fn) (pos fd)
        ≡ ok (pos (out_of a ri ro fn fd))
  unfolding get_v2_amount_out
  get_v2_amount_out_pos zero = rw (zero-mul fn, zero-mul ro, zero-div (ri * fd + 0)) refl
  get_v2_amount_out_pos (suc a) = ground (arith, base_pos)

  pub get_v2_amount_in_pos :
      (out : ℕ)
      → 0 < out
      → out < ro
      → get_v2_amount_in (pos out) (pos ri) (pos ro) (pos fn) (pos fd)
        ≡ ok (pos (in_for out ri ro fn fd))
  unfolding get_v2_amount_in
  get_v2_amount_in_pos out out_pos lt =
      let scaled = one-le-mul {a = ro - out} {b = fn} (omega arith) fn_pos in ground (arith, scaled)

-- getV2AmountOut returns an amount, never negative, whatever its arguments.
pub get_v2_amount_out_total :
    (amount_in reserve_in reserve_out numerator denominator : ℤ)
    → (q : ℕ) × (get_v2_amount_out amount_in reserve_in reserve_out numerator denominator
        ≡ ok (pos q))
unfolding get_v2_amount_out
get_v2_amount_out_total (negsuc a) ri ro fn fd = (0, refl)
get_v2_amount_out_total (pos a) (negsuc ri) ro fn fd = (0, ground arith)
get_v2_amount_out_total (pos a) (pos ri) (negsuc ro) fn fd = (0, ground arith)
get_v2_amount_out_total (pos a) (pos ri) (pos ro) (negsuc fn) fd = (0, ground arith)
get_v2_amount_out_total (pos a) (pos ri) (pos ro) (pos fn) (negsuc fd) = (0, ground arith)
get_v2_amount_out_total (pos a) (pos ri) (pos ro) (pos fn) (pos fd) =
    elim (Bool-cases (no_pool (pos ri) (pos ro) (pos fn) (pos fd))) [
      | inl closed ↦ (0, ground arith)
      | inr traded ↦ (
        out_of a ri ro fn fd,
        get_v2_amount_out_pos ri ro fn fd (ground arith) (ground arith) (ground arith)
            (ground arith) a,
      )
    ]
