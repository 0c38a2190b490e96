-- ===== src/Profit/Compute/Verdict.antt =====
-- computeProfit of src/profit/compute.ts: the assessment as a whole.
use ts_hsync_arb.Prelude.{
  ℕ, ◌⊎◌, ◌∙◌, sym, subst, ◌≡◌, true, false, not, ◌&&◌, ◌||◌, Option, none, some, arith, refl,
  Bool-cases, inl, inr, if◌then◌else◌,
}
use ts_hsync_arb.Prelude.Int.{
  ℤ, pos, negsuc, ◌+ℤ◌, ◌-ℤ◌, ltb_ℤ, leb_ℤ, eqb_ℤ, ◌≤ℤ◌, ◌<ℤ◌, int_laws, eq_of_eqb, lt_of_leb,
  le_of_leb, lt_of_ltb, le_of_ltb,
}
use ts_hsync_arb.Prelude.Results.{ok, ◌>>=◌}
use ts_hsync_arb.Profit.Compute.Parts.{
  Covers, gas_cost_wei_ok, apply_slippage_ok, revert_risk_penalty_ok, gas_in_tokens_ok,
  roi_micro_units_ok,
}
use ts_hsync_arb.Profit.Compute.{
  RouteResult, ProfitOptions, ProfitAssessment, Settings, Reason, accepted, validate, settings,
  assess, verdict, compute_profit, is_accepted, rate_known, is_count, bps_denom, rate_bad,
  invalid_assessment,
}

-- What the early returns leave.
record Checked (r : RouteResult) (s : Settings) : Type 0 where
  input : leb_ℤ r.amount_in (pos 0) ≡ false
  output : ltb_ℤ r.amount_out (pos 0) ≡ false
  balance : eqb_ℤ r.profit (r.amount_out -ℤ r.amount_in) ≡ true
  gas : not (is_count r.total_gas (pos 0)) ≡ false
  price : ltb_ℤ s.gas_price (pos 0) ≡ false
  slip : (ltb_ℤ s.slippage (pos 0) || ltb_ℤ bps_denom s.slippage) ≡ false
  risk : (ltb_ℤ s.revert_risk (pos 0) || ltb_ℤ bps_denom s.revert_risk) ≡ false
  minimum : ltb_ℤ s.min_profit (pos 0) ≡ false
  hop_count : not (is_count s.hops (pos 1)) ≡ false
  rate : rate_bad s.rate ≡ false

validate-Checked : (r : RouteResult) (s : Settings) → validate r s ≡ accepted → Checked r s
validate-Checked r s e = record {
  input = ground arith;
  output = ground arith;
  balance = ground arith;
  gas = ground arith;
  price = ground arith;
  slip = ground arith;
  risk = ground arith;
  minimum = ground arith;
  hop_count = ground arith;
  rate = ground arith;
}

-- The deductions are not negative and account for the whole gross profit; the gas in tokens pays for
-- the gas at the rate.
pub record Balanced (r : RouteResult) (s : Settings) (a : ProfitAssessment) : Type 0 where
  pub gross : a.gross_profit ≡ r.amount_out -ℤ r.amount_in
  pub whole :
      a.net_profit_after_gas +ℤ a.gas_cost_in_tokens +ℤ a.revert_penalty +ℤ a.slippage_deduction
      ≡ a.gross_profit
  pub slippage_nonneg : pos 0 ≤ℤ a.slippage_deduction
  pub penalty_nonneg : pos 0 ≤ℤ a.revert_penalty
  pub gas_nonneg : pos 0 ≤ℤ a.gas_cost_in_tokens
  pub paid :
      (cost tokens : ℕ) × (a.gas_cost_wei ≡ pos cost)
      × (a.gas_cost_in_tokens ≡ pos tokens)
      × Covers s.rate cost tokens

-- The rate is not known, or the profit is positive.
abbrev pub PositiveAtRate : Option ℤ → ℤ → Type 0
PositiveAtRate none profit = Unit {0}
PositiveAtRate (some rate) profit = pos 0 <ℤ profit

-- What an accepted route has.
pub record Cleared (r : RouteResult) (s : Settings) (a : ProfitAssessment) : Type 0 where
  pub spends : pos 0 <ℤ r.amount_in
  pub gains : pos 0 <ℤ a.gross_profit
  pub keeps : pos 0 <ℤ (a.gross_profit -ℤ a.slippage_deduction)
  pub enough : s.min_profit ≤ℤ a.net_profit_after_gas
  pub floor : pos 0 ≤ℤ s.min_profit
  pub after_gas : PositiveAtRate s.rate a.net_profit_after_gas

-- The rate is known, and the profit is not positive.
abbrev pub SpentAtRate : Option ℤ → ℤ → Type 0
SpentAtRate none profit = ⊥
SpentAtRate (some rate) profit = profit ≤ℤ pos 0

-- A threshold that a refused route misses.
abbrev pub Missed : RouteResult → Settings → ProfitAssessment → Type 0
Missed r s a =
    (a.gross_profit ≤ℤ pos 0)
    ⊎ (((a.gross_profit -ℤ a.slippage_deduction) ≤ℤ pos 0)
        ⊎ ((a.net_profit_after_gas <ℤ s.min_profit) ⊎ SpentAtRate s.rate a.net_profit_after_gas))

-- The verdict of the threshold checks.
abbrev pub Judged : RouteResult → Settings → ProfitAssessment → Type 0
Judged r s a =
    ((a.should_execute ≡ false) × Missed r s a) ⊎ ((a.should_execute ≡ true) × Cleared r s a)

spent_at_rate :
    (rate : Option ℤ) (profit : ℤ)
    → (rate_known rate && leb_ℤ profit (pos 0)) ≡ true
    → SpentAtRate rate profit
spent_at_rate none profit h = ground (arith, h)
spent_at_rate (some rate) profit h = le_of_leb profit (pos 0) h

positive_at_rate :
    (rate : Option ℤ) (profit : ℤ)
    → (rate_known rate && leb_ℤ profit (pos 0)) ≡ false
    → PositiveAtRate rate profit
positive_at_rate none profit h = tt
positive_at_rate (some rate) profit h = lt_of_leb profit (pos 0) h

clamped : (a : ℤ) → (g : ℕ) × ((if ltb_ℤ (pos 0) a then a else pos 0) ≡ pos g)
clamped (pos n) = (n, ground arith)
clamped (negsuc n) = (0, refl)

module _ (r : RouteResult) (s : Settings) (c : Checked r s) where
  verdict_cleared :
      (after_slippage after_gas : ℤ)
      → is_accepted (verdict r s after_slippage after_gas) ≡ true
      → (leb_ℤ r.profit (pos 0) ≡ false)
        × (leb_ℤ after_slippage (pos 0) ≡ false)
        × (ltb_ℤ after_gas s.min_profit ≡ false)
        × PositiveAtRate s.rate after_gas
  verdict_cleared after_slippage after_gas e =
      (ground arith, ground arith, ground arith, positive_at_rate s.rate after_gas (ground arith))

  verdict_missed :
      (after_slippage after_gas : ℤ)
      → is_accepted (verdict r s after_slippage after_gas) ≡ false
      → (r.profit ≤ℤ pos 0)
        ⊎ ((after_slippage ≤ℤ pos 0) ⊎ ((after_gas <ℤ s.min_profit) ⊎ SpentAtRate s.rate after_gas))
  verdict_missed after_slippage after_gas e = elim (Bool-cases (leb_ℤ r.profit (pos 0))) [
    | inl no_gain ↦ inl (le_of_leb r.profit (pos 0) no_gain)
    | inr gain ↦ elim (Bool-cases (leb_ℤ after_slippage (pos 0))) [
      | inl wiped ↦ inr (inl (le_of_leb after_slippage (pos 0) wiped))
      | inr kept ↦ elim (Bool-cases (ltb_ℤ after_gas s.min_profit)) [
        | inl low ↦ inr (inr (inl (lt_of_ltb after_gas s.min_profit low)))
        | inr reached ↦ inr (inr (inr (spent_at_rate s.rate after_gas (ground arith))))
      ]
    ]
  ]

  assess_sound : (a : ProfitAssessment) × (assess r s ≡ ok a) × Balanced r s a × Judged r s a
  unfolding assess
  assess_sound =
      let (cost, cost_eq) = gas_cost_wei_ok r.total_gas s.gas_price c.gas c.price in
      let (adjusted, adjusted_eq, adjusted_le) =
        apply_slippage_ok r.amount_out s.slippage c.output c.slip in
      let after_slippage : ℤ = pos adjusted -ℤ r.amount_in in
      let (base, base_eq) = clamped after_slippage in
      let (penalty, penalty_eq, penalty_le) =
        revert_risk_penalty_ok base s.hops s.revert_risk c.hop_count c.risk in
      let (tokens, tokens_eq, covers) = gas_in_tokens_ok s.rate cost c.rate in
      let net : ℤ = after_slippage -ℤ pos penalty in
      let after_gas : ℤ = net -ℤ pos tokens in
      let (roi, roi_eq) = roi_micro_units_ok after_gas r.amount_in c.input in
      let gross = eq_of_eqb r.profit (r.amount_out -ℤ r.amount_in) c.balance in
      let balance : after_gas +ℤ pos tokens +ℤ pos penalty +ℤ (r.amount_out -ℤ pos adjusted)
          ≡ r.amount_out -ℤ r.amount_in =
        omega int_laws in
      let left : after_slippage ≡ r.profit -ℤ (r.amount_out -ℤ pos adjusted) =
        subst (λ g. after_slippage ≡ g -ℤ (r.amount_out -ℤ pos adjusted)) (sym gross)
          (omega int_laws) in
      let reason : Reason = verdict r s after_slippage after_gas in
      (
        record {
          should_execute = is_accepted reason;
          gross_profit = r.profit;
          gas_cost_wei = pos cost;
          gas_cost_in_tokens = pos tokens;
          slippage_deduction = r.amount_out -ℤ pos adjusted;
          revert_penalty = pos penalty;
          net_profit = net;
          net_profit_after_gas = after_gas;
          roi = roi;
          reject_reason = reason;
        },
        rw (cost_eq, ◌>>=◌)
            (rw (adjusted_eq, ◌>>=◌)
              (rw base_eq
                (rw (penalty_eq, ◌>>=◌) (rw (tokens_eq, ◌>>=◌) (rw (roi_eq, ◌>>=◌) refl))))),
        record {
          gross = gross;
          whole = balance ∙ sym gross;
          slippage_nonneg = omega int_laws;
          penalty_nonneg = omega arith;
          gas_nonneg = omega arith;
          paid = (cost, tokens, refl, refl, covers);
        },
        elim (Bool-cases (is_accepted reason)) [
          | inl good ↦
              let (gain, kept, reached, at_rate) = verdict_cleared after_slippage after_gas good in
              inr (
                good,
                record {
                  spends = lt_of_leb r.amount_in (pos 0) c.input;
                  gains = lt_of_leb r.profit (pos 0) gain;
                  keeps = subst (λ x. pos 0 <ℤ x) left (lt_of_leb after_slippage (pos 0) kept);
                  enough = le_of_ltb after_gas s.min_profit reached;
                  floor = le_of_ltb s.min_profit (pos 0) c.minimum;
                  after_gas = at_rate;
                },
              )
          | inr bad ↦ inl (
            bad,
            elim (verdict_missed after_slippage after_gas bad) [
              | inl no_gain ↦ inl no_gain
              | inr (inl wiped) ↦ inr (inl (subst (λ x. x ≤ℤ pos 0) left wiped))
              | inr (inr missed) ↦ inr (inr missed)
            ],
          )
        ],
      )

accepted_of_is_accepted : (reason : Reason) → is_accepted reason ≡ true → reason ≡ accepted
accepted_of_is_accepted reason e = ground arith

-- computeProfit never throws on a route result. Where an early return is taken it gives the invalid assessment
-- with its reason; otherwise the assessment accounts for the whole gross profit by deductions that are
-- not negative, with the gas paid for at the rate, and either says to execute and clears every threshold (a
-- positive input and gross profit, a positive profit after slippage, at least the minimum profit after gas, and
-- a positive profit after gas where the rate is known), or says not to execute and misses one of them.
pub compute_profit_sound :
    (r : RouteResult) (o : ProfitOptions)
    → let s = settings r.shape o in
      (a : ProfitAssessment) × (compute_profit (some r) o ≡ ok a)
      × (((is_accepted (validate r s) ≡ false) × (a ≡ invalid_assessment r.profit (validate r s)))
          ⊎ (Balanced r s a × Judged r s a))
unfolding compute_profit
compute_profit_sound r o =
    let s = settings r.shape o in
    elim (Bool-cases (is_accepted (validate r s))) [
      | inl good ↦
          let checked = validate-Checked r s (accepted_of_is_accepted (validate r s) good) in
          let (a, e, balanced, judged) = assess_sound r s checked in
          (a, rw good e, inr (balanced, judged))
      | inr bad ↦ (invalid_assessment r.profit (validate r s), rw bad refl, inl (bad, refl))
    ]
