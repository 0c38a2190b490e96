-- ===== src/Profit/Compute.antt =====
-- src/profit/compute.ts. The `roi` field is the exact micro-unit quotient that the code rounds to a
-- floating-point number; nothing else reads it.
pub mod Parts
pub mod Verdict
use mathlib.Core.Option.{get_or}
use ts_hsync_arb.Prelude.{
  ℕ, ◌*◌, ◌^◌, Bool, true, false, not, ◌&&◌, ◌||◌, Option, none, some, if◌then◌else◌,
}
use ts_hsync_arb.Prelude.Int.{ℤ, pos, ◌+ℤ◌, ◌-ℤ◌, ◌*ℤ◌, ltb_ℤ, leb_ℤ, eqb_ℤ}
use ts_hsync_arb.Prelude.Number.{Number, whole, other, is_safe_integer}
use ts_hsync_arb.Prelude.Results.{
  Result, ok, err, ◌>>=◌, ◌>>◌, throw_if, div, negative_gas_cost, rate_not_positive,
  invalid_gas_units, negative_amount_out, invalid_slippage, negative_gross_profit,
  invalid_hop_count, invalid_revert_risk,
}
use ts_hsync_arb.Routing.PathHops.{ResultShape, get_result_hop_count}

abbrev pub default_gas_price_wei : ℤ
default_gas_price_wei = pos (50 * 10 ^ 9)

abbrev pub bps_denom : ℤ
bps_denom = pos 10_000

-- ceilDiv
unfoldable pub ceil_div_ℤ : ℤ → ℤ → Result ℤ
ceil_div_ℤ numerator denominator = div (numerator +ℤ denominator -ℤ pos 1) denominator

-- gasCostInTokenUnits
unfoldable pub gas_cost_in_token_units : ℤ → ℤ → Result ℤ
unfolding ceil_div_ℤ
gas_cost_in_token_units gas_cost rate = do
  throw_if (ltb_ℤ gas_cost (pos 0)) negative_gas_cost
  throw_if (leb_ℤ rate (pos 0)) rate_not_positive
  ceil_div_ℤ gas_cost rate

-- roiMicroUnits, before the conversion to a number
unfoldable pub roi_micro_units : ℤ → ℤ → Result ℤ
roi_micro_units profit amount_in =
    if leb_ℤ amount_in (pos 0) then ok (pos 0) else div (profit *ℤ pos 1_000_000) amount_in

abbrev pub is_count : Number → ℤ → Bool
is_count (whole n) least = is_safe_integer (whole n) && leb_ℤ least n
is_count other least = false

abbrev pub to_bigint : Number → ℤ
to_bigint (whole n) = n
to_bigint other = pos 0

-- gasCostWei
unfoldable pub gas_cost_wei : Number → ℤ → Result ℤ
gas_cost_wei gas_units gas_price = do
  throw_if (not (is_count gas_units (pos 0))) invalid_gas_units
  ok (to_bigint gas_units *ℤ gas_price)

-- applySlippage
unfoldable pub apply_slippage : ℤ → ℤ → Result ℤ
apply_slippage amount_out slippage_bps = do
  throw_if (ltb_ℤ amount_out (pos 0)) negative_amount_out
  throw_if (ltb_ℤ slippage_bps (pos 0) || ltb_ℤ bps_denom slippage_bps) invalid_slippage
  div (amount_out *ℤ (bps_denom -ℤ slippage_bps)) bps_denom

-- revertRiskPenalty
unfoldable pub revert_risk_penalty : ℤ → Number → ℤ → Result ℤ
revert_risk_penalty gross_profit hop_count revert_risk_bps = do
  throw_if (ltb_ℤ gross_profit (pos 0)) negative_gross_profit
  throw_if (not (is_count hop_count (pos 1))) invalid_hop_count
  throw_if (ltb_ℤ revert_risk_bps (pos 0) || ltb_ℤ bps_denom revert_risk_bps) invalid_revert_risk
  let over = to_bigint hop_count -ℤ pos 2
  let extra_hops = if ltb_ℤ over (pos 0) then pos 0 else over
  let adjusted = revert_risk_bps +ℤ extra_hops *ℤ pos 200
  let capped = if ltb_ℤ (pos 3000) adjusted then pos 3000 else adjusted
  div (gross_profit *ℤ capped) bps_denom

pub data Reason : Type 0 where
  accepted : Reason
  missing_route_result amount_in_not_positive amount_out_negative profit_mismatch : Reason
  invalid_total_gas gas_price_negative bad_slippage bad_revert_risk : Reason
  min_net_profit_negative bad_hop_count rate_not_positive_reason : Reason
  gross_profit_not_positive wiped_by_slippage below_minimum gas_exceeds_net_profit : Reason

pub record RouteResult : Type 0 where
  pub amount_in : ℤ
  pub amount_out : ℤ
  pub profit : ℤ
  pub total_gas : Number
  pub shape : ResultShape

pub record ProfitOptions : Type 0 where
  pub gas_price_wei : Option ℤ
  pub token_to_matic_rate : Option ℤ
  pub slippage_bps : Option ℤ
  pub revert_risk_bps : Option ℤ
  pub min_net_profit : Option ℤ
  pub hop_count : Option Number

pub record ProfitAssessment : Type 0 where
  pub should_execute : Bool
  pub gross_profit : ℤ
  pub gas_cost_wei : ℤ
  pub gas_cost_in_tokens : ℤ
  pub slippage_deduction : ℤ
  pub revert_penalty : ℤ
  pub net_profit : ℤ
  pub net_profit_after_gas : ℤ
  pub roi : ℤ
  pub reject_reason : Reason

-- invalidAssessment
abbrev pub invalid_assessment : ℤ → Reason → ProfitAssessment
invalid_assessment profit reason = record {
  should_execute = false;
  gross_profit = profit;
  gas_cost_wei = pos 0;
  gas_cost_in_tokens = pos 0;
  slippage_deduction = pos 0;
  revert_penalty = pos 0;
  net_profit = pos 0;
  net_profit_after_gas = pos 0;
  roi = pos 0;
  reject_reason = reason;
}

-- The options with their defaults filled in.
pub record Settings : Type 0 where
  pub gas_price : ℤ
  pub rate : Option ℤ
  pub slippage : ℤ
  pub revert_risk : ℤ
  pub min_profit : ℤ
  pub hops : Number

abbrev pub no_derived_count : Option Number → Number
no_derived_count none = whole (pos 2)
no_derived_count (some n) = whole (pos 0)

abbrev pub default_hop_count : ResultShape → Option ℤ → Number
default_hop_count shape (some n) = whole n
default_hop_count shape none = no_derived_count shape.hop_count

abbrev pub settings : ResultShape → ProfitOptions → Settings
settings shape o = record {
  gas_price = get_or o.gas_price_wei default_gas_price_wei;
  rate = o.token_to_matic_rate;
  slippage = get_or o.slippage_bps (pos 50);
  revert_risk = get_or o.revert_risk_bps (pos 500);
  min_profit = get_or o.min_net_profit (pos 0);
  hops = get_or o.hop_count (default_hop_count shape (get_result_hop_count shape));
}

abbrev pub rate_bad : Option ℤ → Bool
rate_bad none = false
rate_bad (some rate) = leb_ℤ rate (pos 0)

-- The early returns, in order; `accepted` where none is taken.
abbrev pub validate : RouteResult → Settings → Reason
validate r s =
    if leb_ℤ r.amount_in (pos 0)
    then amount_in_not_positive
    else if ltb_ℤ r.amount_out (pos 0)
    then amount_out_negative
    else if not (eqb_ℤ r.profit (r.amount_out -ℤ r.amount_in))
    then profit_mismatch
    else if not (is_count r.total_gas (pos 0))
    then invalid_total_gas
    else if ltb_ℤ s.gas_price (pos 0)
    then gas_price_negative
    else if ltb_ℤ s.slippage (pos 0) || ltb_ℤ bps_denom s.slippage
    then bad_slippage
    else if ltb_ℤ s.revert_risk (pos 0) || ltb_ℤ bps_denom s.revert_risk
    then bad_revert_risk
    else if ltb_ℤ s.min_profit (pos 0)
    then min_net_profit_negative
    else if not (is_count s.hops (pos 1))
    then bad_hop_count
    else if rate_bad s.rate
    then rate_not_positive_reason
    else accepted

-- Step 4: the gas cost in tokens, where the rate is known and positive.
abbrev pub gas_in_tokens : Option ℤ → ℤ → Result ℤ
unfolding gas_cost_in_token_units
gas_in_tokens none gas_cost = ok (pos 0)
gas_in_tokens (some rate) gas_cost =
    if ltb_ℤ (pos 0) rate then gas_cost_in_token_units gas_cost rate else ok (pos 0)

abbrev pub rate_known : Option ℤ → Bool
rate_known none = false
rate_known (some rate) = true

-- Step 6: the threshold checks.
abbrev pub verdict : RouteResult → Settings → ℤ → ℤ → Reason
verdict r s after_slippage after_gas =
    if leb_ℤ r.profit (pos 0)
    then gross_profit_not_positive
    else if leb_ℤ after_slippage (pos 0)
    then wiped_by_slippage
    else if ltb_ℤ after_gas s.min_profit
    then below_minimum
    else if rate_known s.rate && leb_ℤ after_gas (pos 0)
    then gas_exceeds_net_profit
    else accepted

abbrev pub is_accepted : Reason → Bool
is_accepted accepted = true
is_accepted _ = false

-- The body after the early returns. Without a rate the gas is not deducted, so the profit after gas is
-- the net profit in both threshold expressions.
unfoldable pub assess : RouteResult → Settings → Result ProfitAssessment
assess r s = do
  gas_cost ← gas_cost_wei r.total_gas s.gas_price
  adjusted_out ← apply_slippage r.amount_out s.slippage
  let after_slippage = adjusted_out -ℤ r.amount_in
  revert_penalty ←
      revert_risk_penalty (if ltb_ℤ (pos 0) after_slippage then after_slippage else pos 0) s.hops
        s.revert_risk
  let net_profit = after_slippage -ℤ revert_penalty
  tokens ← gas_in_tokens s.rate gas_cost
  let after_gas = net_profit -ℤ tokens
  roi ← roi_micro_units after_gas r.amount_in
  let reason = verdict r s after_slippage after_gas
  ok (record {
    should_execute = is_accepted reason;
    gross_profit = r.profit;
    gas_cost_wei = gas_cost;
    gas_cost_in_tokens = tokens;
    slippage_deduction = r.amount_out -ℤ adjusted_out;
    revert_penalty = revert_penalty;
    net_profit = net_profit;
    net_profit_after_gas = after_gas;
    roi = roi;
    reject_reason = reason;
  })

-- computeProfit
unfoldable pub compute_profit : Option RouteResult → ProfitOptions → Result ProfitAssessment
compute_profit none o = ok (invalid_assessment (pos 0) missing_route_result)
compute_profit (some r) o =
    let s = settings r.shape o in
    let reason = validate r s in
    if is_accepted reason then assess r s else ok (invalid_assessment r.profit reason)

-- isProfitable
pub is_profitable : Option RouteResult → ProfitOptions → Result Bool
is_profitable r o = do assessment ← compute_profit r o; ok assessment.should_execute
