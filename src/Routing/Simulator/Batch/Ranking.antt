-- ===== src/Routing/Simulator/Batch/Ranking.antt =====
-- The result of evaluatePaths (src/routing/simulator.ts).
use ts_hsync_arb.Prelude.{
  ◌≡◌, sym, ap, subst, ◌∙◌, arith, Bool, true, false, none, some, List, [], ◌∷◌, Bool-cases, inl,
  inr, if◌then◌else◌,
}
use ts_hsync_arb.Prelude.Int.{ℤ, pos, ◌≤ℤ◌, leb_of_le, le_of_leb, lt_of_leb}
use ts_hsync_arb.Prelude.Results.{Result, ok, ◌>>=◌, Result-cases, ok-injective, not-threw}
use ts_hsync_arb.Prelude.Keys.{Key}
use ts_hsync_arb.Prelude.Arrays.{sort}
use ts_hsync_arb.Prelude.Arrays.Sorting.{InOrder, Total, sort-InOrder}
use ts_hsync_arb.Prelude.Arrays.Member.{In, first, later, not-In-nil, In-cons, In-sort}
use ts_hsync_arb.Routing.Simulator.{RoutePath, RouteSimResult, simulate_route}
use ts_hsync_arb.Routing.Simulator.Optimize.{default_options, optimize_input_amount}
use ts_hsync_arb.Routing.Simulator.Optimize.Range.{optimize_input_amount-Tried}
use ts_hsync_arb.Routing.Simulator.Batch.{
  Evaluated, profit_before, refine, profitable_paths, evaluate_paths,
}

module _ {K : Type 0} where
  profit_before-Total : Total {A = Evaluated K} profit_before
  profit_before-Total = record {
    other_way = λ x y h.
        leb_of_le x.result.profit y.result.profit
          (omega (arith, lt_of_leb y.result.profit x.result.profit h));
    through = λ x y z h i. leb_of_le z.result.profit x.result.profit (
        omega (
          arith,
          le_of_leb y.result.profit x.result.profit h,
          le_of_leb z.result.profit y.result.profit i,
        ));
  }

module _ {K : Type 0} ⦃key : Key K⦄ where
  -- The result is a profitable simulation of the path at some amount that is not negative.
  pub record SoundEntry (paths : List (RoutePath K)) (e : Evaluated K) : Type 0 where
    pub given : In e.path paths
    pub amount : ℤ
    pub least : pos 0 ≤ℤ amount
    pub simulated : simulate_route e.path amount ≡ ok e.result
    pub gains : e.result.profitable ≡ true

  kept-SoundEntry :
      (test_amount : ℤ) (path : RoutePath K) (paths : List (RoutePath K))
      (quick result : RouteSimResult K)
      → pos 0 ≤ℤ test_amount
      → simulate_route path test_amount ≡ ok quick
      → quick.profitable ≡ true
      → quick ≡ result
      → SoundEntry (path ∷ paths) (record { path = path; result = result })
  kept-SoundEntry test_amount path paths quick result h e gains same = record {
    given = first paths;
    amount = test_amount;
    least = h;
    simulated = e ∙ ap ok same;
    gains = sym (ap (λ q. q.profitable) same) ∙ gains;
  }

  refine-SoundEntry :
      (optimize : Bool) (test_amount : ℤ) (path : RoutePath K) (paths : List (RoutePath K))
      (quick result : RouteSimResult K)
      → pos 0 ≤ℤ test_amount
      → simulate_route path test_amount ≡ ok quick
      → quick.profitable ≡ true
      → refine optimize path quick ≡ ok result
      → SoundEntry (path ∷ paths) (record { path = path; result = result })
  refine-SoundEntry false test_amount path paths quick result h e gains r =
      kept-SoundEntry test_amount path paths quick result h e gains (ok-injective r)
  refine-SoundEntry true test_amount path paths quick result h e gains r =
      elim (Result-cases (optimize_input_amount path default_options)) [
        | inl (thrown, fails) ↦ absurd (not-threw (rw (fails, ◌>>=◌) at r))
        | inr (none, is) ↦
            kept-SoundEntry test_amount path paths quick result h e gains
              (ok-injective (rw (is, ◌>>=◌) at r))
        | inr (some best, is) ↦
            let same : best ≡ result = ok-injective (rw (is, ◌>>=◌) at r) in
            let (tried, gains') =
              optimize_input_amount-Tried path default_options best (omega arith) is in
            record {
              given = first paths;
              amount = tried.amount;
              least = omega (arith, tried.least);
              simulated = tried.simulated ∙ ap ok same;
              gains = sym (ap (λ q. q.profitable) same) ∙ gains';
            }
      ]

  wider :
      (path : RoutePath K) (paths : List (RoutePath K)) (e : Evaluated K)
      → SoundEntry paths e
      → SoundEntry (path ∷ paths) e
  wider path paths e c = record {
    given = later path c.given;
    amount = c.amount;
    least = c.least;
    simulated = c.simulated;
    gains = c.gains;
  }

  -- The loop from a profitable path on.
  abbrev from_profitable :
      Bool → ℤ → RoutePath K → List (RoutePath K) → RouteSimResult K → Result (List (Evaluated K))
  from_profitable optimize test_amount path paths quick = refine optimize path quick >>= λ result.
      profitable_paths optimize test_amount paths >>= λ rest.
      ok (record { path = path; result = result } ∷ rest)

  profitable_paths-SoundEntry :
      (optimize : Bool) (test_amount : ℤ) (paths : List (RoutePath K)) (l : List (Evaluated K))
      (e : Evaluated K)
      → pos 0 ≤ℤ test_amount
      → profitable_paths optimize test_amount paths ≡ ok l
      → In e l
      → SoundEntry paths e
  profitable_paths-SoundEntry optimize test_amount [] l e h p m =
      absurd (not-In-nil (subst (In e) (sym (ok-injective p)) m))
  profitable_paths-SoundEntry optimize test_amount (path ∷ paths) l e h p m =
      elim (Result-cases (simulate_route path test_amount)) [
        | inl (thrown, fails) ↦ absurd (not-threw (rw (fails, ◌>>=◌) at p))
        | inr (quick, is) ↦
            let p' = rw (is, ◌>>=◌) at p in
            elim (Bool-cases quick.profitable) [
              | inr loss ↦ wider path paths e (
                  profitable_paths-SoundEntry optimize test_amount paths l e h
                    (subst
                      (λ b.
                        (if b
                          then from_profitable optimize test_amount path paths quick
                          else profitable_paths optimize test_amount paths)
                        ≡ ok l)
                      loss p')
                    m)
              | inl gain ↦
                  let p'' : from_profitable optimize test_amount path paths quick ≡ ok l =
                    subst
                      (λ b.
                        (if b
                          then from_profitable optimize test_amount path paths quick
                          else profitable_paths optimize test_amount paths)
                        ≡ ok l)
                      gain p' in
                  elim (Result-cases (refine optimize path quick)) [
                    | inl (thrown, fails) ↦ absurd (not-threw (rw (fails, ◌>>=◌) at p''))
                    | inr (result, is1) ↦
                        elim (Result-cases (profitable_paths optimize test_amount paths)) [
                          | inl (thrown, fails) ↦
                              absurd (not-threw (rw (fails, ◌>>=◌) at (rw (is1, ◌>>=◌) at p'')))
                          | inr (rest, is2) ↦
                              let split =
                                ok-injective (rw (is2, ◌>>=◌) at (rw (is1, ◌>>=◌) at p'')) in
                              elim (In-cons (subst (In e) (sym split) m)) [
                                | inl same ↦ subst (SoundEntry (path ∷ paths)) (sym same) (
                                    refine-SoundEntry optimize test_amount path paths quick result h
                                      is gain is1)
                                | inr below ↦ wider path paths e (
                                    profitable_paths-SoundEntry optimize test_amount paths rest e h
                                      is2 below)
                              ]
                        ]
                  ]
            ]
      ]

  -- From a test amount that is not negative, evaluatePaths returns its entries in the order of falling profit,
  -- and each is one of the paths with a profitable simulation of it.
  pub evaluate_paths-SoundEntry :
      (optimize : Bool) (test_amount : ℤ) (paths : List (RoutePath K)) (l : List (Evaluated K))
      → pos 0 ≤ℤ test_amount
      → evaluate_paths optimize test_amount paths ≡ ok l
      → InOrder profit_before l × ((e : Evaluated K) → In e l → SoundEntry paths e)
  unfolding evaluate_paths
  evaluate_paths-SoundEntry optimize test_amount paths l h e =
      elim (Result-cases (profitable_paths optimize test_amount paths)) [
        | inl (thrown, fails) ↦ absurd (not-threw (rw (fails, ◌>>=◌) at e))
        | inr (found, is) ↦
            let same : sort profit_before found ≡ l = ok-injective (rw (is, ◌>>=◌) at e) in
            (
              subst (InOrder profit_before) same
                  (sort-InOrder profit_before profit_before-Total found),
              λ x m.
                  profitable_paths-SoundEntry optimize test_amount paths found x h is
                    (In-sort profit_before x found (subst (In x) (sym same) m)),
            )
      ]
