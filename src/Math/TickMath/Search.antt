-- ===== src/Math/TickMath/Search.antt =====
-- getTickAtSqrtRatioInRange and getTickAtSqrtRatio of src/math/tick_math.ts: the binary search
-- loop, by the ticks left.
use native.Mathlib.Decide.{dec_le}
use ts_hsync_arb.Prelude.{
  ℕ, zero, suc, ◌+◌, ◌≡◌, ◌⊎◌, inl, inr, true, false, arith, Bool-cases, subst,
}
use ts_hsync_arb.Prelude.Int.{
  ℤ, pos, ◌≤ℤ◌, ◌<ℤ◌, ◌+ℤ◌, ◌-ℤ◌, leb_ℤ, floor_half, le_of_leb, lt_of_leb, +ℤ_cancel, -ℤ_cancel,
  int_laws, pos_part, neg_part, floor_half_between,
}
use ts_hsync_arb.Prelude.Results.{ok, ◌>>=◌}
use ts_hsync_arb.Math.TickMath.Ratio.{tick-Priced}
use ts_hsync_arb.Math.TickMath.{search_tick, get_sqrt_ratio_at_tick, min_tick, max_tick}

-- The price of tick `t` is at most `price`; it is above `price`.
abbrev pub AtMost : ℤ → ℤ → Type 0
AtMost price t = (r : ℤ) × (get_sqrt_ratio_at_tick t ≡ ok r) × (leb_ℤ r price ≡ true)

abbrev pub Above : ℤ → ℤ → Type 0
Above price t = (r : ℤ) × (get_sqrt_ratio_at_tick t ≡ ok r) × (leb_ℤ r price ≡ false)

pub not_both : (price t : ℤ) → AtMost price t → Above price t → ⊥
not_both price t (r, e, le) (r', e', gt) = ground arith

module _ (price : ℤ) (fuel : ℕ) (lo hi : ℤ) where
  abbrev mid : ℤ
  mid = floor_half (lo +ℤ hi)

  search_done : leb_ℤ lo hi ≡ false → search_tick (suc fuel) price lo hi ≡ ok hi
  unfolding search_tick
  search_done e = rw (e, search_tick)

  module _ (r : ℤ) (more : leb_ℤ lo hi ≡ true) (priced : get_sqrt_ratio_at_tick mid ≡ ok r) where
    search_up :
        leb_ℤ r price ≡ true
        → search_tick (suc fuel) price lo hi ≡ search_tick fuel price (mid +ℤ pos 1) hi
    unfolding search_tick
    search_up e = rw (more, search_tick) (rw (priced, ◌>>=◌) (rw e))

    search_down :
        leb_ℤ r price ≡ false
        → search_tick (suc fuel) price lo hi ≡ search_tick fuel price lo (mid -ℤ pos 1)
    unfolding search_tick
    search_down e = rw (more, search_tick) (rw (priced, ◌>>=◌) (rw e))

module _ (price first last : ℤ) (low : min_tick ≤ℤ first) (high : last ≤ℤ max_tick) where
  abbrev Bracketed : ℤ → ℤ → Type 0
  Bracketed lo hi =
      ((lo ≤ℤ first) ⊎ AtMost price (lo -ℤ pos 1)) × ((last ≤ℤ hi) ⊎ Above price (hi +ℤ pos 1))

  -- What the loop returns.
  abbrev Found : ℕ → ℤ → ℤ → Type 0
  Found fuel lo hi =
      (t : ℤ) × (search_tick fuel price lo hi ≡ ok t)
      × (first ≤ℤ t +ℤ pos 1)
      × (t ≤ℤ last)
      × ((t <ℤ first) ⊎ AtMost price t)
      × ((last ≤ℤ t) ⊎ Above price (t +ℤ pos 1))

  search_tick-Found :
      (fuel : ℕ) (lo hi : ℤ)
      → first ≤ℤ lo
      → hi ≤ℤ last
      → lo ≤ℤ hi +ℤ pos 1
      → hi +ℤ pos 1 <ℤ lo +ℤ pos fuel
      → Bracketed lo hi
      → Found fuel lo hi
  search_tick-Found zero lo hi from to near room br = absurd (omega int_laws)
  search_tick-Found (suc fuel) lo hi from to near room (below, above) =
      elim (Bool-cases (leb_ℤ lo hi)) [
        | inl more ↦
            let (left, right) = floor_half_between lo hi (le_of_leb lo hi more) in
            let middle : ℤ = floor_half (lo +ℤ hi) in
            let (r, priced, _, _) = tick-Priced middle (omega arith) (omega arith) in
            elim (Bool-cases (leb_ℤ (pos r) price)) [
              | inl up ↦ rw (search_up price fuel lo hi (pos r) more priced up) (
                  search_tick-Found fuel (middle +ℤ pos 1) hi (omega int_laws) to (omega int_laws)
                    (omega int_laws) (inr (pos r, rw (+ℤ_cancel middle (pos 1)) priced, up), above))
              | inr down ↦ rw (search_down price fuel lo hi (pos r) more priced down) (
                  search_tick-Found fuel lo (middle -ℤ pos 1) from (omega int_laws) (omega int_laws)
                    (omega int_laws)
                    (below, inr (pos r, rw (-ℤ_cancel middle (pos 1)) priced, down)))
            ]
        | inr done ↦
            let past = lt_of_leb lo hi done in
            let e : lo -ℤ pos 1 ≡ hi = omega int_laws in
            (
              hi,
              search_done price fuel lo hi done,
              omega int_laws,
              to,
              elim below [
                | inl start ↦ inl (omega int_laws)
                | inr b ↦ inr (subst (AtMost price) e b)
              ],
              above,
            )
      ]

  -- From a range whose first price is at most the given one, the tick found is in the range.
  pub search_tick_bracket :
      (fuel : ℕ)
      → AtMost price first
      → first ≤ℤ last
      → last +ℤ pos 1 <ℤ first +ℤ pos fuel
      → (t : ℤ) × (search_tick fuel price first last ≡ ok t)
        × (first ≤ℤ t)
        × (t ≤ℤ last)
        × AtMost price t
        × ((last ≤ℤ t) ⊎ Above price (t +ℤ pos 1))
  search_tick_bracket fuel start le room =
      let (t, found, near, to, below, above) =
        search_tick-Found fuel first last (omega arith) (omega arith) (omega int_laws) room
          (inl (omega arith), inl (omega arith)) in
      elim below [
        | inr at_most ↦ elim (dec_le (pos_part first + neg_part t) (pos_part t + neg_part first)) [
          | yes inside ↦ (t, found, inside, to, at_most, above)
          | no outside ↦ absurd (contradiction t near (omega arith) above)
        ]
        | inl outside ↦ absurd (contradiction t near outside above)
      ]
    where
      contradiction :
          (t : ℤ) → first ≤ℤ t +ℤ pos 1 → t <ℤ first → (last ≤ℤ t) ⊎ Above price (t +ℤ pos 1) → ⊥
      contradiction t near outside (inl past) = omega arith
      contradiction t near outside (inr gt) =
          let e : t +ℤ pos 1 ≡ first = omega int_laws in
          not_both price first start (subst (Above price) e gt)
