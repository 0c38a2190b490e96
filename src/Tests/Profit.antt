-- ===== src/Tests/Profit.antt =====
-- src/profit at a concrete route.
use ts_hsync_arb.Prelude.{◌≡◌, ◌⊎◌, none, some, false}
use ts_hsync_arb.Prelude.Int.{pos}
use ts_hsync_arb.Prelude.Number.{whole}
use ts_hsync_arb.Prelude.Results.{ok}
use ts_hsync_arb.Routing.PathHops.{ResultShape}
use ts_hsync_arb.Profit.Compute.{
  RouteResult, ProfitOptions, ProfitAssessment, settings, compute_profit, validate, is_accepted,
  invalid_assessment,
}
use ts_hsync_arb.Profit.Compute.Verdict.{Balanced, Judged, compute_profit_sound}

abbrev shape : ResultShape
shape = record { pool_path = some 2; hop_amounts = none; token_path = none; hop_count = none }

abbrev pub route : RouteResult
route = record {
  amount_in = pos 1_000_000;
  amount_out = pos 1_200_000;
  profit = pos 200_000;
  total_gas = whole (pos 250_000);
  shape = shape;
}

abbrev options : ProfitOptions
options = record {
  gas_price_wei = some (pos 30);
  token_to_matic_rate = some (pos 1000);
  slippage_bps = none;
  revert_risk_bps = none;
  min_net_profit = none;
  hop_count = none;
}

compute_profit_sound_example :
    let s = settings shape options in
    (a : ProfitAssessment) × (compute_profit (some route) options ≡ ok a)
    × (((is_accepted (validate route s) ≡ false)
          × (a ≡ invalid_assessment route.profit (validate route s)))
        ⊎ (Balanced route s a × Judged route s a))
compute_profit_sound_example = compute_profit_sound route options
