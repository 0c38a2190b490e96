-- ===== src/Routing/Simulator/Walk.antt =====
-- The loop of simulateRoute of src/routing/simulator.ts over the edges of a route.
use ts_hsync_arb.Prelude.{
  ◌+◌, ◌≡◌, ◌⊎◌, refl, sym, ap, subst, ◌∙◌, arith, true, List, [], ◌∷◌, length, length-append,
  Bool-cases, inl, inr, if◌then◌else◌,
}
use ts_hsync_arb.Prelude.Int.{ℤ, pos, eqb_ℤ, eq_of_eqb}
use ts_hsync_arb.Prelude.Results.{Result, ok, ◌>>=◌, Result-cases, ok-injective, not-threw}
use ts_hsync_arb.Prelude.Keys.{Key}
use ts_hsync_arb.Math.UniswapV2.{Swap}
use ts_hsync_arb.Routing.Simulator.{
  RouteToken, HopEdge, RouteState, simulate_hop, push_hop, same_route_token, route_loop,
}

module _ {K : Type 0} ⦃key : Key K⦄ where
  -- A walk over the edges from a token with an amount: each edge starts at the token that the last one
  -- ended at, and takes what simulateHop gave for the last one.
  pub data Walk : RouteToken K → ℤ → List (HopEdge K) → RouteToken K → ℤ → Type 0 where
    stay : (t : RouteToken K) (amount : ℤ) → Walk t amount [] t amount
    hop :
        {t u : RouteToken K} {amount out : ℤ} {edge : HopEdge K} {edges : List (HopEdge K)}
        (swap : Swap)
        → same_route_token edge.token_in t ≡ true
        → simulate_hop edge amount ≡ ok swap
        → Walk edge.token_out swap.amount_out edges u out
        → Walk t amount (edge ∷ edges) u out

  -- What the loop has done over the edges from `s` to `s'`.
  pub record Walked (edges : List (HopEdge K)) (s s' : RouteState K) : Type 0 where
    pub walk : Walk s.expected_token_in s.current edges s'.expected_token_in s'.current
    pub pools : length s'.pool_path ≡ length s.pool_path + length edges
    pub amounts : length s'.hop_amounts ≡ length s.hop_amounts + length edges
    pub tokens : length s'.token_path ≡ length s.token_path + length edges

  abbrev after_hop :
      HopEdge K → List (HopEdge K) → RouteState K → Result Swap → Result (RouteState K)
  after_hop edge edges s r = r >>= λ swap.
      let s' = push_hop s edge swap in
      let rest = route_loop edges s' in if eqb_ℤ swap.amount_out (pos 0) then ok s' else rest

  pushed :
      (edge : HopEdge K) (edges : List (HopEdge K)) (s s' : RouteState K) (swap : Swap)
      → same_route_token edge.token_in s.expected_token_in ≡ true
      → simulate_hop edge s.current ≡ ok swap
      → Walked edges (push_hop s edge swap) s'
      → Walked (edge ∷ edges) s s'
  pushed edge edges s s' swap joined gives w = record {
    walk = hop swap joined gives w.walk;
    pools = omega (arith, w.pools, length-append s.pool_path (edge.pool_address ∷ []));
    amounts = omega (arith, w.amounts, length-append s.hop_amounts (swap.amount_out ∷ []));
    tokens = omega (arith, w.tokens, length-append s.token_path (edge.token_out ∷ []));
  }

  pub route_loop-Walked :
      (edges : List (HopEdge K)) (s s' : RouteState K)
      → route_loop edges s ≡ ok s'
      → (s'.current ≡ pos 0) ⊎ Walked edges s s'
  unfolding route_loop
  route_loop-Walked [] s s' e =
      let same : s ≡ s' = ok-injective e in
      inr (
        subst (Walked [] s) same (record {
          walk = stay s.expected_token_in s.current;
          pools = omega arith;
          amounts = omega arith;
          tokens = omega arith;
        }))
  route_loop-Walked (edge ∷ edges) s s' e =
      elim (Bool-cases (same_route_token edge.token_in s.expected_token_in)) [
        | inr apart ↦
            let stopped : Path (Result (RouteState K)) (ok (record s { current = pos 0 })) (ok s') =
              rw apart at e in
            inl (sym (ap (λ s. s.current) (ok-injective stopped)))
        | inl joined ↦
            let step : route_loop (edge ∷ edges) s
                ≡ after_hop edge edges s (simulate_hop edge s.current) =
              rw joined refl in
            elim (Result-cases (simulate_hop edge s.current)) [
              | inl (thrown, fails) ↦
                  absurd (not-threw (sym (ap (after_hop edge edges s) fails) ∙ sym step ∙ e))
              | inr (swap, gives) ↦
                  let e' = sym (ap (after_hop edge edges s) gives) ∙ sym step ∙ e in
                  elim (Bool-cases (eqb_ℤ swap.amount_out (pos 0))) [
                    | inl zero_out ↦
                        let ended : Path (Result (RouteState K)) (ok (push_hop s edge swap))
                            (ok s') =
                          rw zero_out at e' in
                        inl (
                          sym (ap (λ s. s.current) (ok-injective ended))
                          ∙ eq_of_eqb swap.amount_out (pos 0) zero_out)
                    | inr more ↦
                        let further : route_loop edges (push_hop s edge swap) ≡ ok s' =
                          rw more at e' in
                        elim (route_loop-Walked edges (push_hop s edge swap) s' further) [
                          | inl none_left ↦ inl none_left
                          | inr w ↦ inr (pushed edge edges s s' swap joined gives w)
                        ]
                  ]
            ]
      ]
