-- ===== src/Routing/Simulator/Optimize/Range.antt =====
-- The amounts that optimizeInputAmount (src/routing/simulator.ts) tries.
use ts_hsync_arb.Prelude.{
  ℕ, zero, suc, ◌≡◌, sym, ap, subst, ◌∙◌, arith, true, false, Option, none, some, List, [], ◌∷◌,
  Bool-cases, inl, inr,
}
use ts_hsync_arb.Prelude.Int.{ℤ, pos, negsuc, ◌+ℤ◌, ◌-ℤ◌, ◌≤ℤ◌, ltb_ℤ, leb_ℤ, quot, int_laws}
use ts_hsync_arb.Prelude.Results.{Result, ok, ◌>>=◌, Result-cases, ok-injective, not-threw}
use ts_hsync_arb.Prelude.Keys.{Key}
use ts_hsync_arb.Routing.Simulator.{RoutePath, RouteSimResult, simulate_route}
use ts_hsync_arb.Routing.Simulator.Optimize.{
  OptimizeOptions, Search, better, narrow, ternary_search, evaluate_amounts, accepted,
  optimize_input_amount,
}

third_bounds :
    (x : ℤ)
    → leb_ℤ (quot x (pos 3)) (pos 0) ≡ false
    → (pos 0 ≤ℤ quot x (pos 3)) × (quot x (pos 3) ≤ℤ x)
third_bounds (pos n) h = (omega arith, omega arith)
third_bounds (negsuc n) h = absurd (ground (arith, h))

half_bounds :
    (x : ℤ)
    → (quot x (pos 2) +ℤ quot x (pos 2) ≤ℤ x +ℤ pos 1)
      × (x ≤ℤ quot x (pos 2) +ℤ quot x (pos 2) +ℤ pos 1)
half_bounds (pos n) = (omega arith, omega arith)
half_bounds (negsuc n) = (ground arith, ground arith)

third_between :
    (lo hi : ℤ)
    → lo ≤ℤ hi
    → leb_ℤ (quot (hi -ℤ lo) (pos 3)) (pos 0) ≡ false
    → let third = quot (hi -ℤ lo) (pos 3) in
      (lo ≤ℤ (lo +ℤ third)) × ((lo +ℤ third) ≤ℤ hi) × (lo ≤ℤ (hi -ℤ third)) × ((hi -ℤ third) ≤ℤ hi)
third_between lo hi h positive =
    let (positive', at_most) = third_bounds (hi -ℤ lo) positive in
    (omega int_laws, omega int_laws, omega int_laws, omega int_laws)

half_between :
    (lo hi : ℤ) → lo ≤ℤ hi → (lo ≤ℤ quot (lo +ℤ hi) (pos 2)) × (quot (lo +ℤ hi) (pos 2) ≤ℤ hi)
half_between lo hi h = let (low, high) = half_bounds (lo +ℤ hi) in (omega int_laws, omega int_laws)

module _ {K : Type 0} ⦃key : Key K⦄ (path : RoutePath K) (options : OptimizeOptions K) where
  -- A result of an amount within the limits of the options.
  pub record Tried (r : RouteSimResult K) : Type 0 where
    pub amount : ℤ
    pub least : options.min_amount ≤ℤ amount
    pub most : amount ≤ℤ options.max_amount
    pub simulated : simulate_route path amount ≡ ok r

  abbrev pub AllTried : Option (RouteSimResult K) → Type 0
  AllTried none = Unit
  AllTried (some best) = Tried best

  better-AllTried :
      (best best' : Option (RouteSimResult K)) (r : RouteSimResult K)
      → AllTried best
      → Tried r
      → better path options best r ≡ ok best'
      → AllTried best'
  better-AllTried none best' r h t e = subst AllTried (ok-injective e) t
  better-AllTried (some best) best' r h t e =
      elim (Result-cases (simulate_route path best.amount_in)) [
        | inl (thrown, fails) ↦ absurd (not-threw (rw (fails, ◌>>=◌) at e))
        | inr (again, is) ↦ elim (Bool-cases (ltb_ℤ (options.scorer again) (options.scorer r))) [
          | inl up ↦ subst AllTried (ok-injective (rw up at (rw (is, ◌>>=◌) at e))) t
          | inr not_up ↦ subst AllTried (ok-injective (rw not_up at (rw (is, ◌>>=◌) at e))) h
        ]
      ]

  -- The interval is inside the limits, and the best result is of an amount inside them.
  pub record InRange (s : Search K) : Type 0 where
    pub low : options.min_amount ≤ℤ s.lo
    pub ordered : s.lo ≤ℤ s.hi
    pub high : s.hi ≤ℤ options.max_amount
    pub tried : AllTried s.best

  try_amount :
      (s : Search K) (amount : ℤ) (r : RouteSimResult K)
      → InRange s
      → s.lo ≤ℤ amount
      → amount ≤ℤ s.hi
      → simulate_route path amount ≡ ok r
      → Tried r
  try_amount s amount r h above below e = record {
    amount = amount;
    least = omega (arith, h.low, above);
    most = omega (arith, h.high, below);
    simulated = e;
  }

  with_best :
      (s s' : Search K) (lo hi : ℤ) (r : RouteSimResult K)
      → InRange s
      → Tried r
      → options.min_amount ≤ℤ lo
      → lo ≤ℤ hi
      → hi ≤ℤ options.max_amount
      → (better path options s.best r >>= λ best. ok (record { lo = lo; hi = hi; best = best }))
        ≡ ok s'
      → InRange s'
  with_best s s' lo hi r h t low ordered high e =
      elim (Result-cases (better path options s.best r)) [
        | inl (thrown, fails) ↦ absurd (not-threw (rw (fails, ◌>>=◌) at e))
        | inr (best, is) ↦
            let same : Path (Search K) (record { lo = lo; hi = hi; best = best }) s' =
              ok-injective (rw (is, ◌>>=◌) at e) in
            subst InRange same (record {
              low = low;
              ordered = ordered;
              high = high;
              tried = better-AllTried s.best best r h.tried t is;
            })
      ]

  narrow-InRange :
      (s s' : Search K)
      → InRange s
      → leb_ℤ (quot (s.hi -ℤ s.lo) (pos 3)) (pos 0) ≡ false
      → narrow path options s (quot (s.hi -ℤ s.lo) (pos 3)) ≡ ok s'
      → InRange s'
  narrow-InRange s s' h positive e =
      let third = quot (s.hi -ℤ s.lo) (pos 3) in
      let (a, b, c, d) = third_between s.lo s.hi h.ordered positive in
      elim (Result-cases (simulate_route path (s.lo +ℤ third))) [
        | inl (thrown, fails) ↦ absurd (not-threw (rw (fails, ◌>>=◌) at e))
        | inr (r1, is1) ↦ elim (Result-cases (simulate_route path (s.hi -ℤ third))) [
          | inl (thrown, fails) ↦ absurd (not-threw (rw (fails, ◌>>=◌) at (rw (is1, ◌>>=◌) at e)))
          | inr (r2, is2) ↦
              let t1 = try_amount s (s.lo +ℤ third) r1 h a b is1 in
              let t2 = try_amount s (s.hi -ℤ third) r2 h c d is2 in
              let e' = rw (is2, ◌>>=◌) at (rw (is1, ◌>>=◌) at e) in
              elim (Bool-cases (ltb_ℤ (options.scorer r2) (options.scorer r1))) [
                | inl first_better ↦
                    with_best s s' s.lo (s.hi -ℤ third) r1 h t1 h.low c (omega (arith, d, h.high))
                      (rw first_better at e')
                | inr second_better ↦
                    with_best s s' (s.lo +ℤ third) s.hi r2 h t2 (omega (arith, a, h.low)) b h.high
                      (rw second_better at e')
              ]
        ]
      ]

  search-InRange :
      (i : ℕ) (s s' : Search K) → InRange s → ternary_search path options i s ≡ ok s' → InRange s'
  unfolding ternary_search
  search-InRange zero s s' h e = subst InRange (ok-injective e) h
  search-InRange (suc i) s s' h e =
      elim (Bool-cases (leb_ℤ (quot (s.hi -ℤ s.lo) (pos 3)) (pos 0))) [
        | inl done ↦
            let same : Path (Result (Search K)) (ok s) (ok s') = rw done at e in
            subst InRange (ok-injective same) h
        | inr more ↦
            let third = quot (s.hi -ℤ s.lo) (pos 3) in
            let next : (narrow path options s third >>= λ s1. ternary_search path options i s1)
                ≡ ok s' =
              rw more at e in
            elim (Result-cases (narrow path options s third)) [
              | inl (thrown, fails) ↦ absurd (
                  not-threw
                    (sym (ap (λ r. r >>= λ s1. ternary_search path options i s1) fails) ∙ next))
              | inr (s1, is) ↦
                  search-InRange i s1 s' (narrow-InRange s s1 h more is)
                    (sym (ap (λ r. r >>= λ s1. ternary_search path options i s1) is) ∙ next)
            ]
      ]

  abbrev Between : Search K → List ℤ → Type 0
  Between s [] = Unit {0}
  Between s (amount ∷ amounts) = (s.lo ≤ℤ amount) × (amount ≤ℤ s.hi) × Between s amounts

  evaluate-AllTried :
      (s : Search K) (amounts : List ℤ) (best best' : Option (RouteSimResult K))
      → InRange s
      → Between s amounts
      → AllTried best
      → evaluate_amounts path options amounts best ≡ ok best'
      → AllTried best'
  evaluate-AllTried s [] best best' h b t e = subst AllTried (ok-injective e) t
  evaluate-AllTried s (amount ∷ amounts) best best' h b t e =
      elim (Bool-cases (leb_ℤ amount (pos 0))) [
        | inl skipped ↦ evaluate-AllTried s amounts best best' h b.2 t (rw skipped at e)
        | inr used ↦ elim (Result-cases (simulate_route path amount)) [
          | inl (thrown, fails) ↦ absurd (not-threw (rw (fails, ◌>>=◌) at (rw used at e)))
          | inr (r, is) ↦
              let e' = rw (is, ◌>>=◌) at (rw used at e) in
              elim (Result-cases (better path options best r)) [
                | inl (thrown, fails) ↦ absurd (not-threw (rw (fails, ◌>>=◌) at e'))
                | inr (best1, is1) ↦
                    evaluate-AllTried s amounts best1 best' h b.2
                      (better-AllTried best best1 r t (try_amount s amount r h b.0 b.1 is) is1)
                      (rw (is1, ◌>>=◌) at e')
              ]
        ]
      ]

  accepted-AllTried :
      (best : Option (RouteSimResult K)) (r : RouteSimResult K)
      → AllTried best
      → accepted path options best ≡ some r
      → Tried r × (options.accept r ≡ true)
  accepted-AllTried none r t e = absurd cc
  accepted-AllTried (some best) r t e = elim (Bool-cases (options.accept best)) [
    | inl agrees ↦
        let kept : Path (Option (RouteSimResult K)) (some best) (some r) = rw agrees at e in
        let same : best ≡ r = cc in (subst Tried same t, ap options.accept (sym same) ∙ agrees)
    | inr refuses ↦
        let none_left : Path (Option (RouteSimResult K)) none (some r) = rw refuses at e in
        absurd cc
  ]

  -- What optimizeInputAmount returns, where the least amount of its options is at most the largest, is the
  -- simulation of the path at an amount between the two, and the options accept it.
  pub optimize_input_amount-Tried :
      (r : RouteSimResult K)
      → options.min_amount ≤ℤ options.max_amount
      → optimize_input_amount path options ≡ ok (some r)
      → Tried r × (options.accept r ≡ true)
  unfolding optimize_input_amount
  optimize_input_amount-Tried r ordered e =
      let first : Search K = record {
        lo = options.min_amount;
        hi = options.max_amount;
        best = none;
      } in
      elim (Result-cases (ternary_search path options options.iterations first)) [
        | inl (thrown, fails) ↦ absurd (not-threw (rw (fails, ◌>>=◌) at e))
        | inr (s, is) ↦
            let h =
              search-InRange options.iterations first s
                (record { low = omega arith; ordered = ordered; high = omega arith; tried = tt })
                is in
            let e' = rw (is, ◌>>=◌) at e in
            let amounts = s.lo ∷ quot (s.lo +ℤ s.hi) (pos 2) ∷ s.hi ∷ [] in
            let (low, high) = half_between s.lo s.hi h.ordered in
            elim (Result-cases (evaluate_amounts path options amounts s.best)) [
              | inl (thrown, fails) ↦ absurd (not-threw (rw (fails, ◌>>=◌) at e'))
              | inr (best, is') ↦
                  let t =
                    evaluate-AllTried s amounts s.best best h
                      ((omega arith, h.ordered, (low, high, (h.ordered, omega arith, tt)))) h.tried
                      is' in
                  accepted-AllTried best r t (ok-injective (rw (is', ◌>>=◌) at e'))
            ]
      ]
