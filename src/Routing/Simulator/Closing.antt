-- ===== src/Routing/Simulator/Closing.antt =====
-- simulateRoute of src/routing/simulator.ts on a route that comes out profitable.
use ts_hsync_arb.Prelude.{
  ℕ, suc, ◌≤◌, ◌<◌, ◌^◌, ◌≡◌, ◌⊎◌, refl, sym, ap, subst, ◌∙◌, arith, true, false, some, List, [],
  length, ltb, Bool-cases, inl, inr, if◌then◌else◌,
}
use ts_hsync_arb.Prelude.Int.{ℤ, pos, negsuc, ◌-ℤ◌, ltb_ℤ}
use ts_hsync_arb.Prelude.Number.{Number}
use ts_hsync_arb.Prelude.Results.{Result, ok, ◌>>=◌, Result-cases, ok-injective, not-threw}
use ts_hsync_arb.Prelude.Keys.{Key}
use ts_hsync_arb.Routing.PathHops.{get_path_hop_count, get_result_hop_count}
use ts_hsync_arb.Routing.Simulator.Walk.{Walk, Walked, route_loop-Walked}
use ts_hsync_arb.Routing.Simulator.{
  RouteToken, HopEdge, RoutePath, RouteSimResult, RouteState, edge_list, shape_of, same_route_token,
  route_loop, first_state, bad_path, edges_length, closing_amount, simulate_route, run_route,
  route_result,
}

-- Nothing left is no profit.
no_profit :
    (c : ℤ) (amount_in : ℕ) → ltb_ℤ (pos 0) c ≡ false → ltb_ℤ (pos 0) (c -ℤ pos amount_in) ≡ false
no_profit (pos c) amount_in h = ground (arith, h)
no_profit (negsuc c) amount_in h = ground (arith, h)

counted :
    (n : ℕ) (hop_count : Number)
    → 0 < n
    → n ≤ 2 ^ 32
    → get_result_hop_count (record {
      pool_path = some n;
      hop_amounts = some (suc n);
      token_path = some (suc n);
      hop_count = some hop_count;
    })
      ≡ some (pos n)
unfolding get_result_hop_count
counted n hop_count some_hop bounded = ground (arith, some_hop, bounded)

module _ {K : Type 0} ⦃key : Key K⦄ where
  -- With nothing to swap the result is not profitable.
  idle :
      (path : RoutePath K) (amount_in : ℕ) (hop_count : Number) (r : RouteSimResult K)
      → run_route path (pos amount_in) hop_count (pos 0) ≡ ok r
      → r.profitable ≡ false
  unfolding route_loop
  idle path amount_in hop_count r e =
      let first = first_state path.start_token (pos amount_in) (pos 0) in
      let same : route_result path (pos amount_in) hop_count first ≡ r = ok-injective e in
      sym (ap (λ r. r.profitable) same) ∙ ground arith

  closing_cases :
      (s : RouteState K) (start : RouteToken K)
      → (ltb_ℤ (pos 0) (closing_amount s start) ≡ false)
        ⊎ ((closing_amount s start ≡ s.current)
            × (same_route_token s.expected_token_in start ≡ true))
  closing_cases s start = ground arith

  -- A profitable end of the loop that started with the given amount.
  abbrev Closed : RoutePath K → ℕ → List (HopEdge K) → RouteSimResult K → Type 0
  Closed path amount_in edges r =
      (last : RouteToken K) × Walk path.start_token (pos amount_in) edges last r.amount_out
      × (same_route_token last path.start_token ≡ true)
      × (get_result_hop_count (shape_of r) ≡ some (pos (length edges)))

  result-Closed :
      (path : RoutePath K) (amount_in : ℕ) (hop_count : Number) (edges : List (HopEdge K))
      (s : RouteState K)
      → 0 < length edges
      → length edges ≤ 2 ^ 32
      → (s.current ≡ pos 0)
        ⊎ Walked edges (first_state path.start_token (pos amount_in) (pos amount_in)) s
      → ltb_ℤ (pos 0) (closing_amount s path.start_token -ℤ pos amount_in) ≡ true
      → Closed path amount_in edges (route_result path (pos amount_in) hop_count s)
  result-Closed path amount_in hop_count edges s some_hop bounded end profitable =
      elim (closing_cases s path.start_token) [
        | inl nothing_left ↦
            let none_made = no_profit (closing_amount s path.start_token) amount_in nothing_left in
            absurd (ground (arith, none_made, profitable))
        | inr (all, returns) ↦ elim end [
          | inl empty ↦
              let nothing_left : ltb_ℤ (pos 0) (closing_amount s path.start_token) ≡ false =
                rw (all ∙ empty) refl in
              let none_made =
                no_profit (closing_amount s path.start_token) amount_in nothing_left in
              absurd (ground (arith, none_made, profitable))
          | inr w ↦
              let pools : length s.pool_path ≡ length edges = omega (arith, w.pools) in
              let amounts : length s.hop_amounts ≡ suc (length edges) = omega (arith, w.amounts) in
              let tokens : length s.token_path ≡ suc (length edges) = omega (arith, w.tokens) in
              (
                s.expected_token_in,
                subst (λ c. Walk path.start_token (pos amount_in) edges s.expected_token_in c)
                    (sym all) w.walk,
                returns,
                rw (pools, amounts, tokens) (counted (length edges) hop_count some_hop bounded),
              )
        ]
      ]

  run_route-Closed :
      (path : RoutePath K) (amount_in : ℕ) (hop_count : Number) (edges : List (HopEdge K))
      (r : RouteSimResult K)
      → path.edges ≡ some edges
      → 0 < amount_in
      → 0 < length edges
      → length edges ≤ 2 ^ 32
      → run_route path (pos amount_in) hop_count (pos amount_in) ≡ ok r
      → r.profitable ≡ true
      → Closed path amount_in edges r
  run_route-Closed path amount_in hop_count edges r is some_amount some_hop bounded e profitable =
      let first = first_state path.start_token (pos amount_in) (pos amount_in) in
      let going : ltb_ℤ (pos 0) (pos amount_in) ≡ true = ground (arith, some_amount) in
      let listed : (if ltb_ℤ (pos 0) (pos amount_in) then edge_list path.edges else []) ≡ edges =
        rw (going, is) refl in
      let step : (route_loop edges first >>= λ s.
      ok (route_result path (pos amount_in) hop_count s))
          ≡ ok r =
        sym (
          ap (λ l. route_loop l first >>= λ s. ok (route_result path (pos amount_in) hop_count s))
            listed)
        ∙ e in
      elim (Result-cases (route_loop edges first)) [
        | inl (thrown, fails) ↦ absurd (
            not-threw (
              sym (ap (λ x. x >>= λ s. ok (route_result path (pos amount_in) hop_count s)) fails)
              ∙ step))
        | inr (s, ends) ↦
            let same = ok-injective (
              sym (ap (λ x. x >>= λ s. ok (route_result path (pos amount_in) hop_count s)) ends)
              ∙ step) in
            subst (Closed path amount_in edges) same (
              result-Closed path amount_in hop_count edges s some_hop bounded
                (route_loop-Walked edges first s ends) (ap (λ r. r.profitable) same ∙ profitable))
      ]

  -- A simulation from an amount that is not negative, of at most 2^32 edges, that is profitable has walked
  -- every edge of the path, of which there is at least one: each edge starts at the token where the last
  -- one ended and takes the last one's output, the walk returns to its start token with the output of the
  -- result, and getResultHopCount reads the number of the edges.
  pub simulate_route-profitable :
      (path : RoutePath K) (amount_in : ℕ) (edges : List (HopEdge K)) (r : RouteSimResult K)
      → path.edges ≡ some edges
      → length edges ≤ 2 ^ 32
      → simulate_route path (pos amount_in) ≡ ok r
      → r.profitable ≡ true
      → (0 < amount_in)
        × (0 < length edges)
        × ((last : RouteToken K) × Walk path.start_token (pos amount_in) edges last r.amount_out
            × (same_route_token last path.start_token ≡ true)
            × (get_result_hop_count (shape_of r) ≡ some (pos (length edges))))
  unfolding simulate_route get_path_hop_count
  simulate_route-profitable path amount_in edges r is bounded e profitable =
      let hops = get_path_hop_count (edges_length path.edges) path.hop_count in
      let started : ℤ → Result (RouteSimResult K) = λ c. run_route path (pos amount_in) hops c in
      elim (Bool-cases (bad_path path.edges hops)) [
        | inl bad ↦
            let e' : started (pos 0) ≡ ok r =
              sym (ap (λ b. started (if b then pos 0 else pos amount_in)) bad) ∙ e in
            let no : r.profitable ≡ false = idle path amount_in hops r e' in
            absurd (ground (arith, no, profitable))
        | inr good ↦
            let e' : started (pos amount_in) ≡ ok r =
              sym (ap (λ b. started (if b then pos 0 else pos amount_in)) good) ∙ e in
            let some_hop : 0 < length edges = ground (arith, is, good) in
            elim (Bool-cases (ltb 0 amount_in)) [
              | inl some_amount ↦
                  let more : 0 < amount_in = ground (arith, some_amount) in
                  (
                    more,
                    some_hop,
                    run_route-Closed path amount_in hops edges r is more some_hop bounded e'
                        profitable,
                  )
              | inr none_given ↦
                  let zero_in : amount_in ≡ 0 = ground (arith, none_given) in
                  let e'' : started (pos 0) ≡ ok r = ap (λ n. started (pos n)) (sym zero_in) ∙ e' in
                  let no : r.profitable ≡ false = idle path amount_in hops r e'' in
                  absurd (ground (arith, no, profitable))
            ]
      ]
