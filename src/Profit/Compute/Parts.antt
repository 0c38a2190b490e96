-- ===== src/Profit/Compute/Parts.antt =====
-- The deductions of src/profit/compute.ts on arguments that pass the checks of computeProfit.
use native.Mathlib.Nat.{mul-le-mul_left}
use ts_hsync_arb.Prelude.{
  ℕ, ◌+◌, ◌-◌, ◌*◌, ◌/◌, ◌≤◌, ◌<◌, ◌≡◌, false, not, ◌||◌, Option, none, some, arith, refl, ltb,
  if◌then◌else◌,
}
use ts_hsync_arb.Prelude.Int.{ℤ, pos, negsuc, ltb_ℤ, leb_ℤ, ◌≤ℤ◌, quot, ◌*ℤ◌}
use ts_hsync_arb.Prelude.Number.{Number, whole, other}
use ts_hsync_arb.Prelude.Results.{ok}
use ts_hsync_arb.Prelude.Division.{lt-mul_of_div_lt}
use ts_hsync_arb.Profit.Compute.{
  bps_denom, is_count, gas_cost_wei, apply_slippage, revert_risk_penalty, gas_in_tokens,
  roi_micro_units, rate_bad,
}

-- A gas cost in tokens pays for the gas at the rate.
abbrev pub Covers : Option ℤ → ℕ → ℕ → Type 0
Covers none cost tokens = Unit {0}
Covers (some (pos rate)) cost tokens = cost ≤ tokens * rate
Covers (some (negsuc rate)) cost tokens = ⊥

pub gas_cost_wei_ok :
    (gas : Number) (price : ℤ)
    → not (is_count gas (pos 0)) ≡ false
    → ltb_ℤ price (pos 0) ≡ false
    → (cost : ℕ) × (gas_cost_wei gas price ≡ ok (pos cost))
unfolding gas_cost_wei
gas_cost_wei_ok (whole (pos g)) (pos p) h k = (g * p, ground arith)
gas_cost_wei_ok (whole (pos g)) (negsuc p) h k = cc
gas_cost_wei_ok (whole (negsuc g)) p h k = ground arith
gas_cost_wei_ok other p h k = cc

pub apply_slippage_ok :
    (out bps : ℤ)
    → ltb_ℤ out (pos 0) ≡ false
    → ltb_ℤ bps (pos 0) || ltb_ℤ bps_denom bps ≡ false
    → (adjusted : ℕ) × (apply_slippage out bps ≡ ok (pos adjusted)) × (pos adjusted ≤ℤ out)
unfolding apply_slippage
apply_slippage_ok (negsuc o) b h k = cc
apply_slippage_ok (pos o) (negsuc b) h k = cc
apply_slippage_ok (pos o) (pos b) h k =
    let scaled = mul-le-mul_left {m = 10_000 - b} {n = 10_000} o (omega arith) in
    (o * (10_000 - b) / 10_000, ground arith, omega arith)

pub revert_risk_penalty_ok :
    (gross : ℕ) (hops : Number) (bps : ℤ)
    → not (is_count hops (pos 1)) ≡ false
    → ltb_ℤ bps (pos 0) || ltb_ℤ bps_denom bps ≡ false
    → (penalty : ℕ) × (revert_risk_penalty (pos gross) hops bps ≡ ok (pos penalty))
      × (penalty ≤ gross)
unfolding revert_risk_penalty
revert_risk_penalty_ok g other b h k = cc
revert_risk_penalty_ok g (whole (negsuc n)) b h k = ground arith
revert_risk_penalty_ok g (whole (pos n)) (negsuc b) h k = cc
revert_risk_penalty_ok g (whole (pos n)) (pos b) h k =
    let risk : ℕ = b + (n - 2) * 200 in
    let capped : ℕ = if ltb 3000 risk then 3000 else risk in
    let small : capped ≤ 10_000 = ground arith in
    let scaled = mul-le-mul_left {m = capped} {n = 10_000} g small in
    (g * capped / 10_000, ground arith, omega arith)

pub gas_in_tokens_ok :
    (rate : Option ℤ) (cost : ℕ)
    → rate_bad rate ≡ false
    → (tokens : ℕ) × (gas_in_tokens rate (pos cost) ≡ ok (pos tokens)) × Covers rate cost tokens
unfolding gas_in_tokens
gas_in_tokens_ok none cost h = (0, refl, tt)
gas_in_tokens_ok (some (negsuc r)) cost h = cc
gas_in_tokens_ok (some (pos r)) cost h =
    let r_pos : 0 < r = ground arith in
    let q : ℕ = (cost + r - 1) / r in
    let next = lt-mul_of_div_lt (cost + r - 1) (q + 1) {d = r} r_pos (omega arith) in
    (q, ground arith, omega arith)

pub roi_micro_units_ok :
    (profit amount_in : ℤ)
    → leb_ℤ amount_in (pos 0) ≡ false
    → (roi : ℤ) × (roi_micro_units profit amount_in ≡ ok roi)
unfolding roi_micro_units
roi_micro_units_ok profit (negsuc a) h = cc
roi_micro_units_ok profit (pos a) h = (quot (profit *ℤ pos 1_000_000) (pos a), ground arith)
