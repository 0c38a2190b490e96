-- ===== src/Arb/Assessment/Threshold.antt =====
-- assessRouteResult of src/arb/assessment.ts, which calls computeProfit.
use ts_hsync_arb.Prelude.{
  ℕ, suc, ◌+◌, ◌-◌, ◌*◌, ◌/◌, ◌<◌, ◌≡◌, sym, ap, subst, ◌∙◌, arith, true, false, inl, inr,
}
use ts_hsync_arb.Prelude.Int.{ℤ, pos, negsuc, ◌*ℤ◌, ◌≤ℤ◌}
use ts_hsync_arb.Prelude.Number.{Number}
use ts_hsync_arb.Prelude.Results.{ok, ok-injective}
use ts_hsync_arb.Prelude.Division.{lt-mul_of_div_lt}
use ts_hsync_arb.Profit.Compute.{RouteResult, ProfitAssessment}
use ts_hsync_arb.Profit.Compute.Verdict.{compute_profit_sound}
use ts_hsync_arb.Arb.Assessment.{
  AssessmentConfig, assessment_options, min_profit_in_token_units, assess_route_result,
}

stopped :
    (a a' : ProfitAssessment) → a' ≡ a → a.should_execute ≡ true → a'.should_execute ≡ false → ⊥
stopped a a' same executes off =
    let stays : a.should_execute ≡ false = sym (ap (λ x. x.should_execute) same) ∙ off in
    ground (arith, stays, executes)

module _ (rate min_profit : ℕ) (rate_pos : 0 < rate) where
  in_token_units :
      min_profit_in_token_units (pos rate) (pos min_profit) ≡ pos ((min_profit + rate - 1) / rate)
  in_token_units = ground (arith, rate_pos)

  worth : (g : ℤ) → pos ((min_profit + rate - 1) / rate) ≤ℤ g → pos min_profit ≤ℤ (g *ℤ pos rate)
  worth (pos g) h =
      let in_units : (min_profit + rate - 1) / rate < suc g = omega (arith, h) in
      let under : min_profit + rate - 1 < suc g * rate =
        lt-mul_of_div_lt (min_profit + rate - 1) (suc g) rate_pos in_units in
      ground (arith, under, rate_pos)
  worth (negsuc g) h = absurd (omega arith)

  -- With a positive rate and a least profit that is not negative, an assessment that says to execute has a net
  -- profit after gas that is worth at least the least profit at the rate.
  pub assess_route_result-worth :
      (hop_count : Number) (r : RouteResult) (gas_price : ℤ) (config : AssessmentConfig)
      (a : ProfitAssessment)
      → config.min_profit_wei ≡ pos min_profit
      → assess_route_result hop_count r gas_price (pos rate) config ≡ ok a
      → a.should_execute ≡ true
      → pos min_profit ≤ℤ (a.net_profit_after_gas *ℤ pos rate)
  unfolding assess_route_result
  assess_route_result-worth hop_count r gas_price config a least e executes =
      let (a', e', v) =
        compute_profit_sound r (assessment_options hop_count gas_price (pos rate) config) in
      let same : a' ≡ a = ok-injective (sym e' ∙ e) in
      elim v [
        | inl (refused, invalid) ↦
            absurd (stopped a a' same executes (ap (λ x. x.should_execute) invalid))
        | inr (balanced, inl (off, missed)) ↦ absurd (stopped a a' same executes off)
        | inr (balanced, inr (on, cleared)) ↦
            let floor : min_profit_in_token_units (pos rate) config.min_profit_wei
                ≡ pos ((min_profit + rate - 1) / rate) =
              ap (min_profit_in_token_units (pos rate)) least ∙ in_token_units in
            subst (λ x. pos min_profit ≤ℤ (x.net_profit_after_gas *ℤ pos rate)) same
              (worth a'.net_profit_after_gas
                (subst (λ t. t ≤ℤ a'.net_profit_after_gas) floor cleared.enough))
      ]
