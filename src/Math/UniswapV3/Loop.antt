-- ===== src/Math/UniswapV3/Loop.antt =====
-- The loop of simulateV3Swap of src/math/uniswap_v3.ts, round by round.
use ts_hsync_arb.Prelude.{
  ℕ, zero, suc, ◌+◌, ◌-◌, ◌<◌, ◌≡◌, ◌⊎◌, arith, refl, ◌∙◌, Bool, true, false, Option, none, some,
  List, Bool-cases, inl, inr, ap,
}
use ts_hsync_arb.Prelude.Int.{ℤ, pos, negsuc, ltb_ℤ, eqb_ℤ, ◌≤ℤ◌, sub_ℕ_le}
use ts_hsync_arb.Prelude.Results.{Result, ok, ◌>>=◌}
use ts_hsync_arb.Math.SwapStep.{SwapStep, compute_swap_step}
use ts_hsync_arb.Math.SwapStep.ExactIn.{compute_swap_step_exact_in}
use ts_hsync_arb.Math.TickMath.{min_tick}
use ts_hsync_arb.Math.InitializedTicks.{next_initialized_tick}
use ts_hsync_arb.Math.UniswapV3.{
  SwapState, price_at, clamp, cross, move_to, finish_round, after_step, swap_round, liquidity_net,
  swap_loop,
}
use ts_hsync_arb.Math.UniswapV3.Ticks.{
  InDomain, AllInitialized, MaybeTick, next_initialized_tick-MaybeTick, Running, Settled, TickAbove,
  derive_tick_ok,
}

price_at_ok :
    (next : Option ℤ) (limit : ℕ)
    → MaybeTick next
    → InDomain limit
    → (p : ℕ) × (price_at next (pos limit) ≡ ok (pos p)) × InDomain p
price_at_ok none limit h inside = (limit, refl, inside)
price_at_ok (some t) limit (_, _, (p, at_tick, inside)) l = (p, at_tick, inside)

clamp_ok :
    (zero_for_one : Bool) (p limit : ℕ)
    → InDomain p
    → InDomain limit
    → (t : ℕ) × (clamp zero_for_one (pos p) (pos limit) ≡ pos t) × InDomain t
clamp_ok true p limit h l = elim (Bool-cases (ltb_ℤ (pos p) (pos limit))) [
  | inl below ↦ (limit, rw below refl, l)
  | inr above ↦ (p, rw above refl, h)
]
clamp_ok false p limit h l = elim (Bool-cases (ltb_ℤ (pos limit) (pos p))) [
  | inl below ↦ (limit, rw below refl, l)
  | inr above ↦ (p, rw above refl, h)
]

positive : (x : ℤ) → ltb_ℤ (pos 0) x ≡ true → (l : ℕ) × (x ≡ pos l) × (0 < l)
positive (pos n) h = (n, refl, ground arith)
positive (negsuc n) h = absurd cc

-- What a crossing keeps.
cross_keeps :
    (zero_for_one : Bool) (net : Option ℤ) (s : SwapState)
    → ((cross zero_for_one net s).sqrt_price ≡ s.sqrt_price)
      × ((cross zero_for_one net s).remaining ≡ s.remaining)
      × ((cross zero_for_one net s).calculated ≡ s.calculated)
cross_keeps zero_for_one none s = (refl, refl, refl)
cross_keeps zero_for_one (some net) s = (refl, refl, refl)

move_to-TickAbove :
    (zero_for_one : Bool) (t : ℤ) (s : SwapState)
    → min_tick ≤ℤ t
    → TickAbove zero_for_one (move_to zero_for_one t s).tick
move_to-TickAbove true t s h = tt
move_to-TickAbove false t s h = h

-- The outcome of a round: the loop goes on with a state in order, or leaves one that is settled.
abbrev Progress : Bool → Result (SwapState × Bool) → Type 0
Progress zero_for_one outcome =
    (s : SwapState) × (goes_on : Bool) × (outcome ≡ ok (s, goes_on))
    × (((goes_on ≡ true) × Running s × TickAbove zero_for_one s.tick)
        ⊎ ((goes_on ≡ false) × Settled s))

module _ (ticks : List (ℤ × ℤ)) (zero_for_one : Bool) where
  finish_round-Progress :
      (next : Option ℤ) (reached : Bool) (s : SwapState) (price remaining calculated : ℕ)
      → s.sqrt_price ≡ pos price
      → s.remaining ≡ pos remaining
      → s.calculated ≡ pos calculated
      → InDomain price
      → MaybeTick next
      → TickAbove zero_for_one s.tick
      → Progress zero_for_one (finish_round ticks zero_for_one next reached s)
  unfolding finish_round
  finish_round-Progress none reached s p r c at_p at_r at_c inside h above =
      let (t, e) = derive_tick_ok zero_for_one none s p at_p inside h above in
      (record s { tick = t }, false, e, inr (refl, (p, c, at_p, at_c, inside)))
  finish_round-Progress (some t) false s p r c at_p at_r at_c inside h above =
      let (t', e) = derive_tick_ok zero_for_one (some t) s p at_p inside h above in
      (record s { tick = t' }, false, e, inr (refl, (p, c, at_p, at_c, inside)))
  finish_round-Progress (some t) true s p r c at_p at_r at_c inside (low, high, priced) above =
      let crossed = cross zero_for_one (liquidity_net ticks t) s in
      let (keep_p, keep_r, keep_c) = cross_keeps zero_for_one (liquidity_net ticks t) s in
      elim (Bool-cases (ltb_ℤ (pos 0) crossed.liquidity)) [
        | inl liquid ↦
            let (l, at_l, l_pos) = positive crossed.liquidity liquid in
            (
              move_to zero_for_one t crossed,
              true,
              ap (λ b. ok (move_to zero_for_one t crossed, b)) liquid,
              inl (
                refl,
                record {
                  price = p;
                  liquidity = l;
                  remaining = r;
                  calculated = c;
                  at_price = keep_p ∙ at_p;
                  at_liquidity = at_l;
                  at_remaining = keep_r ∙ at_r;
                  at_calculated = keep_c ∙ at_c;
                  in_domain = inside;
                  liquid = l_pos;
                },
                move_to-TickAbove zero_for_one t crossed low,
              ),
            )
        | inr dry ↦ (
          move_to zero_for_one t crossed,
          false,
          ap (λ b. ok (move_to zero_for_one t crossed, b)) dry,
          inr (refl, (p, c, keep_p ∙ at_p, keep_c ∙ at_c, inside)),
        )
      ]

module _ (ticks : List (ℤ × ℤ)) (sorted : List ℤ) (zero_for_one : Bool) (limit fee : ℕ)
    (hs : AllInitialized sorted) (limit_inside : InDomain limit) (fee_lt : fee < 1_000_000) where
  swap_round-Progress :
      (s : SwapState)
      → Running s
      → TickAbove zero_for_one s.tick
      → Progress zero_for_one (swap_round ticks sorted zero_for_one (pos limit) (pos fee) s)
  unfolding swap_round
  swap_round-Progress s h above =
      let next = next_initialized_tick sorted s.tick zero_for_one in
      let next_ok = next_initialized_tick-MaybeTick sorted hs s.tick zero_for_one in
      let (p, at_next, p_inside) = price_at_ok next limit next_ok limit_inside in
      let (t, clamped, t_inside) = clamp_ok zero_for_one p limit p_inside limit_inside in
      let (q, i, o, f, stepped, _, _, from, to, paid, _) =
        compute_swap_step_exact_in h.price t h.liquidity h.remaining fee
          (omega (arith, h.in_domain)) (omega (arith, t_inside)) h.liquid fee_lt in
      let step : SwapStep = record {
        sqrt_ratio_next = pos q;
        amount_in = pos i;
        amount_out = pos o;
        fee_amount = pos f;
      } in
      let call : compute_swap_step s.sqrt_price (clamp zero_for_one (pos p) (pos limit)) s.liquidity
            s.remaining (pos fee)
          ≡ ok step =
        rw (h.at_price, h.at_liquidity, h.at_remaining, clamped) stepped in
      let (s', goes_on, e, progress) =
        finish_round-Progress ticks zero_for_one next (eqb_ℤ (pos q) (pos p)) (after_step step s) q
          (h.remaining - (i + f)) (h.calculated + o) refl
          (rw h.at_remaining (sub_ℕ_le h.remaining (i + f) paid)) (rw h.at_calculated refl)
          (omega (arith, h.in_domain, t_inside), omega (arith, h.in_domain, t_inside)) next_ok
          above in
      (s', goes_on, rw (at_next, ◌>>=◌) (rw (call, ◌>>=◌) e), progress)

  Running-Settled : (s : SwapState) → Running s → Settled s
  Running-Settled s h = (h.price, h.calculated, h.at_price, h.at_calculated, h.in_domain)

  pub swap_loop-Settled :
      (i : ℕ) (s : SwapState)
      → Running s
      → TickAbove zero_for_one s.tick
      → (s' : SwapState) × (swap_loop i ticks sorted zero_for_one (pos limit) (pos fee) s ≡ ok s')
        × Settled s'
  unfolding swap_loop
  swap_loop-Settled zero s h above = (s, refl, Running-Settled s h)
  swap_loop-Settled (suc i) s h above = elim (Bool-cases (ltb_ℤ (pos 0) s.remaining)) [
    | inr spent ↦ (s, rw (spent, swap_loop) refl, Running-Settled s h)
    | inl left ↦
        let (s', goes_on, round, progress) = swap_round-Progress s h above in
        elim progress [
          | inl (on, h', above') ↦
              let (s2, rest, settled) = swap_loop-Settled i s' h' above' in
              (s2, rw (left, swap_loop) (rw (round, ◌>>=◌) (rw on rest)), settled)
          | inr (off, settled) ↦
              (s', rw (left, swap_loop) (rw (round, ◌>>=◌) (rw off refl)), settled)
        ]
  ]
