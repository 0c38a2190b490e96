-- ===== src/Math/TickMath/Range.antt =====
-- getTickAtSqrtRatioInRange and getTickAtSqrtRatio of src/math/tick_math.ts: from the loop
-- to the two functions.
use native.Mathlib.Decide.{dec_lt}
use ts_hsync_arb.Prelude.{
  ℕ, suc, ◌+◌, ◌≤◌, ◌<◌, ◌≡◌, ◌⊎◌, inl, inr, ◌||◌, true, arith, Bool-cases, if◌then◌else◌, ◌∙◌, sym,
  ap, subst, refl,
}
use ts_hsync_arb.Prelude.Int.{
  ℤ, pos, ◌≤ℤ◌, ◌<ℤ◌, ◌+ℤ◌, leb_ℤ, ltb_ℤ, le_of_ltb, min_ℤ, max_ℤ, min_ℤ-le, le-max_ℤ, int_laws,
  pos_part, neg_part,
}
use ts_hsync_arb.Prelude.Results.{Result, ok, err, invalid_tick_bounds}
use ts_hsync_arb.Math.TickMath.Ratio.{tick-Priced}
use ts_hsync_arb.Math.TickMath.{
  search_tick, get_sqrt_ratio_at_tick, get_tick_at_sqrt_ratio_in_range, get_tick_at_sqrt_ratio,
  tick_in_range, search_in_range, search_fuel, normalise_tick_search_bounds, ratio_of,
  apply_factors, min_tick, max_tick, min_sqrt_ratio, max_sqrt_ratio,
}
use ts_hsync_arb.Math.TickMath.Search.{AtMost, Above, not_both, search_tick_bracket}

checked_bounds :
    (lo' hi' lo hi : ℤ)
    → if◌then◌else◌ {A = Result (ℤ × ℤ)} (ltb_ℤ hi' lo') (err invalid_tick_bounds) (ok (lo', hi'))
      ≡ ok (lo, hi)
    → (lo' ≡ lo) × (hi' ≡ hi) × (lo' ≤ℤ hi')
checked_bounds lo' hi' lo hi e = elim (Bool-cases (ltb_ℤ hi' lo')) [
  | inl crossed ↦ ground arith
  | inr ordered ↦ (ground arith, ground arith, le_of_ltb hi' lo' ordered)
]

normalised :
    (lower upper lo hi : ℤ)
    → normalise_tick_search_bounds lower upper ≡ ok (lo, hi)
    → (min_tick ≤ℤ lo) × (lo ≤ℤ hi) × (hi ≤ℤ max_tick)
unfolding normalise_tick_search_bounds
normalised lower upper lo hi e =
    let lo' : ℤ = max_ℤ min_tick (min_ℤ lower upper) in
    let hi' : ℤ = min_ℤ max_tick (max_ℤ lower upper) in
    let (same_lo, same_hi, order) = checked_bounds lo' hi' lo hi e in
    (
      subst (λ x. min_tick ≤ℤ x) same_lo (le-max_ℤ min_tick (min_ℤ lower upper)),
      subst (λ x. lo ≤ℤ x) same_hi (subst (λ x. x ≤ℤ hi') same_lo order),
      subst (λ x. x ≤ℤ max_tick) same_hi (min_ℤ-le max_tick (max_ℤ lower upper)),
    )

pub at_min_tick : get_sqrt_ratio_at_tick min_tick ≡ ok min_sqrt_ratio
unfolding get_sqrt_ratio_at_tick ratio_of apply_factors
at_min_tick = refl

pub at_max_tick : get_sqrt_ratio_at_tick max_tick ≡ ok max_sqrt_ratio
unfolding get_sqrt_ratio_at_tick ratio_of apply_factors
at_max_tick = refl

abbrev pub max_price : ℕ
max_price = 1461446703485210103287273052203988822378723970342

-- A price of the domain is found by the search over all ticks.
module _ (p : ℕ) (low : 4_295_128_739 ≤ p) (high : p < max_price) where
  whole_range :
      (depth : ℕ)
      → tick_in_range (suc depth) (pos p) min_tick max_tick
        ≡ search_tick search_fuel (pos p) min_tick max_tick
  unfolding tick_in_range search_in_range normalise_tick_search_bounds
  whole_range depth = ground (arith, at_min_tick, at_max_tick)

  max_tick-Above : Above (pos p) max_tick
  max_tick-Above = (max_sqrt_ratio, at_max_tick, ground arith)

  whole_bracket :
      (t : ℤ) × (search_tick search_fuel (pos p) min_tick max_tick ≡ ok t)
      × (min_tick ≤ℤ t)
      × (t <ℤ max_tick)
      × AtMost (pos p) t
      × Above (pos p) (t +ℤ pos 1)
  whole_bracket =
      let (t, found, from, to, at_most, above) =
        search_tick_bracket (pos p) min_tick max_tick (omega arith) (omega arith) search_fuel
          (min_sqrt_ratio, at_min_tick, ground arith) (omega arith) (omega arith) in
      elim above [
        | inr gt ↦ (t, found, from, below_max t to at_most, at_most, gt)
        | inl past ↦ absurd (omega (arith, below_max t to at_most))
      ]
    where
      below_max : (t : ℤ) → t ≤ℤ max_tick → AtMost (pos p) t → t <ℤ max_tick
      below_max t to at_most =
          elim (dec_lt (pos_part t + neg_part max_tick) (pos_part max_tick + neg_part t)) [
            | yes below ↦ below
            | no reached ↦
                let e : t ≡ max_tick = omega int_laws in
                absurd (not_both (pos p) max_tick (subst (AtMost (pos p)) e at_most) max_tick-Above)
          ]

  -- For every price of the domain, from MIN_SQRT_RATIO up to but not including MAX_SQRT_RATIO,
  -- getTickAtSqrtRatio returns a tick of the range below MAX_TICK whose own price is at most the given
  -- one, while the price of the next tick is above it.
  pub get_tick_at_sqrt_ratio_bracket :
      (t : ℤ) × (get_tick_at_sqrt_ratio (pos p) ≡ ok t)
      × (min_tick ≤ℤ t)
      × (t <ℤ max_tick)
      × AtMost (pos p) t
      × Above (pos p) (t +ℤ pos 1)
  unfolding get_tick_at_sqrt_ratio
  get_tick_at_sqrt_ratio_bracket =
      let (t, found, from, below, at_most, gt) = whole_bracket in
      (t, ground (arith, whole_range 1), from, below, at_most, gt)

  tick_in_range_step :
      (depth : ℕ) (lower upper : ℤ)
      → tick_in_range (suc depth) (pos p) lower upper
        ≡ search_in_range (tick_in_range depth (pos p) min_tick max_tick) (pos p) lower upper
  unfolding tick_in_range
  tick_in_range_step depth lower upper = ground arith

  -- The call of getTickAtSqrtRatio is replaced by the search that it makes.
  in_range_lem :
      (lower upper : ℤ)
      → get_tick_at_sqrt_ratio_in_range (pos p) lower upper
        ≡ search_in_range (search_tick search_fuel (pos p) min_tick max_tick) (pos p) lower upper
  unfolding get_tick_at_sqrt_ratio_in_range
  in_range_lem lower upper =
      tick_in_range_step 1 lower upper
      ∙ ap (λ w. search_in_range w (pos p) lower upper) (whole_range 0)

  search_in_range_cases :
      (whole : Result ℤ) (lower upper lo hi r r' : ℤ)
      → normalise_tick_search_bounds lower upper ≡ ok (lo, hi)
      → get_sqrt_ratio_at_tick lo ≡ ok r
      → get_sqrt_ratio_at_tick hi ≡ ok r'
      → (search_in_range whole (pos p) lower upper ≡ whole)
        ⊎ ((search_in_range whole (pos p) lower upper ≡ search_tick search_fuel (pos p) lo hi)
            × (leb_ℤ r (pos p) ≡ true)
            × (leb_ℤ (pos p) r' ≡ true))
  unfolding search_in_range
  search_in_range_cases whole lower upper lo hi r r' e at_lo at_hi =
      elim (Bool-cases (ltb_ℤ (pos p) r || ltb_ℤ r' (pos p))) [
        | inl outside ↦ inl (ground arith)
        | inr inside ↦ inr (ground arith, ground arith, ground arith)
      ]

  at_upper_end :
      (t hi : ℤ) (r' : ℕ)
      → get_sqrt_ratio_at_tick hi ≡ ok (pos r')
      → leb_ℤ (pos p) (pos r') ≡ true
      → t ≤ℤ hi
      → hi ≤ℤ t
      → AtMost (pos p) t
      → (t ≡ hi) × (get_sqrt_ratio_at_tick t ≡ ok (pos p))
  at_upper_end t hi r' at_hi within to from (r, priced, le) =
      let same : t ≡ hi = omega int_laws in
      let alike : ok r ≡ ok (pos r') = sym priced ∙ ap get_sqrt_ratio_at_tick same ∙ at_hi in
      let exact : r ≡ pos p = ground (arith, alike) in (same, priced ∙ ap ok exact)

  -- For every price of the domain and every pair of bounds that meets the tick range,
  -- getTickAtSqrtRatioInRange returns a tick whose price is at most the given one; the price of the
  -- next tick is above it, or the tick is the upper end of the bounds and its price is the given one.
  pub get_tick_at_sqrt_ratio_in_range_bracket :
      (lower upper lo hi : ℤ)
      → normalise_tick_search_bounds lower upper ≡ ok (lo, hi)
      → (t : ℤ) × (get_tick_at_sqrt_ratio_in_range (pos p) lower upper ≡ ok t)
        × AtMost (pos p) t
        × (((t ≡ hi) × (get_sqrt_ratio_at_tick t ≡ ok (pos p))) ⊎ Above (pos p) (t +ℤ pos 1))
  get_tick_at_sqrt_ratio_in_range_bracket lower upper lo hi e =
      let (from, order, to) = normalised lower upper lo hi e in
      let (r, at_lo, _, _) = tick-Priced lo from (omega arith) in
      let (r', at_hi, _, _) = tick-Priced hi (omega arith) to in
      let step = in_range_lem lower upper in
      elim (search_in_range_cases (search_tick search_fuel (pos p) min_tick max_tick) lower upper lo
        hi (pos r) (pos r') e at_lo at_hi) [
          | inl outside ↦
              let (t, found, _, _, at_most, gt) = whole_bracket in
              (t, step ∙ outside ∙ found, at_most, inr gt)
          | inr (inside, le, within) ↦
              let (t, found, _, upper_end, at_most, above) =
                search_tick_bracket (pos p) lo hi from to search_fuel (pos r, at_lo, le) order
                  (omega int_laws) in
              (
                t,
                step ∙ inside ∙ found,
                at_most,
                elim above [
                  | inr gt ↦ inr gt
                  | inl past ↦ inl (at_upper_end t hi r' at_hi within upper_end past at_most)
                ],
              )
        ]
