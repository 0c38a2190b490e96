-- ===== src/Arb/Assessment.antt =====
-- src/arb/assessment.ts: the options of the search for an amount, the assessment of a route result and the
-- order of candidates. A path enters by its hop count.
pub mod Threshold
pub mod Interval
use mathlib.Core.Option.{get_or}
use ts_hsync_arb.Prelude.{ℕ, ◌^◌, Bool, true, false, Option, none, some, if◌then◌else◌}
use ts_hsync_arb.Prelude.Int.{ℤ, pos, negsuc, ◌+ℤ◌, ◌-ℤ◌, ◌*ℤ◌, ltb_ℤ, leb_ℤ, quot}
use ts_hsync_arb.Prelude.Number.{Number}
use ts_hsync_arb.Prelude.Results.{Result}
use ts_hsync_arb.Profit.Compute.{RouteResult, ProfitAssessment, ProfitOptions, compute_profit}

pub record AssessmentConfig : Type 0 where
  pub min_profit_wei : ℤ
  pub slippage_bps : Option ℤ
  pub revert_risk_bps : Option ℤ

abbrev pub min_probe_amount : ℤ
min_probe_amount = pos 1000

-- minProfitInTokenUnits
abbrev pub min_profit_in_token_units : ℤ → ℤ → ℤ
min_profit_in_token_units rate min_profit_wei =
    if leb_ℤ rate (pos 0) then pos 0 else quot (min_profit_wei +ℤ rate -ℤ pos 1) rate

pub record OptimizationOptions : Type 0 where
  pub min_amount : ℤ
  pub max_amount : ℤ
  pub iterations : ℕ

-- getOptimizationOptions, on the input amount of the quick result.
unfoldable pub get_optimization_options : Option ℤ → OptimizationOptions
get_optimization_options quick_amount =
    let amount_in = get_or quick_amount (pos (10 ^ 18)) in
    let min_amount =
      if ltb_ℤ (pos 10) amount_in then quot amount_in (pos 10) else min_probe_amount in
    let max_amount =
      if ltb_ℤ min_amount (amount_in *ℤ pos 8) then amount_in *ℤ pos 8 else min_amount *ℤ pos 8 in
    record {
      min_amount = if ltb_ℤ min_probe_amount min_amount then min_amount else min_probe_amount;
      max_amount = max_amount;
      iterations = 24;
    }

-- The options that assessRouteResult gives to computeProfit.
abbrev pub assessment_options : Number → ℤ → ℤ → AssessmentConfig → ProfitOptions
assessment_options path_hop_count gas_price_wei rate config = record {
  gas_price_wei = some gas_price_wei;
  token_to_matic_rate = some rate;
  slippage_bps = some (get_or config.slippage_bps (pos 50));
  revert_risk_bps = some (get_or config.revert_risk_bps (pos 500));
  min_net_profit = some (min_profit_in_token_units rate config.min_profit_wei);
  hop_count = some path_hop_count;
}

-- assessRouteResult
unfoldable pub assess_route_result :
    Number → RouteResult → ℤ → ℤ → AssessmentConfig → Result ProfitAssessment
assess_route_result path_hop_count route_result gas_price_wei rate config =
    compute_profit (some route_result) (assessment_options path_hop_count gas_price_wei rate config)

-- The fields that profitMarginBps and assessmentNetProfit read of a candidate; `none` where they are missing.
pub record CandidateAssessment : Type 0 where
  pub amount_in : Option ℤ
  pub net_profit_after_gas : Option ℤ
  pub net_profit : Option ℤ

-- assessmentNetProfit
abbrev pub assessment_net_profit : CandidateAssessment → ℤ
assessment_net_profit c = get_or c.net_profit_after_gas (get_or c.net_profit (pos 0))

-- profitMarginBps, from the net profit on.
abbrev pub margin_of : ℤ → ℤ → ℤ
margin_of amount_in net_profit =
    if leb_ℤ amount_in (pos 0)
    then pos 0
    else if leb_ℤ net_profit (pos 0)
    then pos 0
    else quot (net_profit *ℤ pos 10_000) amount_in

abbrev pub profit_margin_bps : CandidateAssessment → ℤ
profit_margin_bps c = margin_of (get_or c.amount_in (pos 0)) (assessment_net_profit c)

-- compareAssessmentProfit
abbrev pub compare_assessment_profit : CandidateAssessment → CandidateAssessment → ℤ
compare_assessment_profit a b =
    let profit_a = assessment_net_profit a in
    let profit_b = assessment_net_profit b in
    if ltb_ℤ profit_a profit_b then pos 1 else if ltb_ℤ profit_b profit_a then negsuc 0 else pos 0
