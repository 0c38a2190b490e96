-- ===== src/Math/UniswapV3/Ticks.antt =====
-- simulateV3Swap of src/math/uniswap_v3.ts: the ticks that it meets, and the branch that derives a tick.
use ts_hsync_arb.Prelude.{
  ℕ, zero, suc, ◌+◌, ◌-◌, ◌/◌, ◌≤◌, ◌<◌, ◌≡◌, ◌⊎◌, arith, refl, Bool, true, false, Option, none,
  some, List, [], ◌∷◌, ltb, length, get_elem?, Bool-cases, inl, inr,
}
use ts_hsync_arb.Prelude.Int.{ℤ, pos, leb_ℤ, ◌≤ℤ◌, int_laws, min_ℤ, max_ℤ}
use ts_hsync_arb.Prelude.Results.{ok, ◌>>=◌}
use ts_hsync_arb.Math.TickMath.{
  min_tick, max_tick, get_sqrt_ratio_at_tick, normalise_tick_search_bounds,
}
use ts_hsync_arb.Math.TickMath.Range.{get_tick_at_sqrt_ratio_in_range_bracket, max_price}
use ts_hsync_arb.Math.InitializedTicks.{
  search_down, search_up, next_initialized_tick, is_at_most, is_above, sort_ticks, insert,
}
use ts_hsync_arb.Math.UniswapV3.{SwapState, tick_bounds, derive_tick}

-- A price inside the domain.
abbrev pub min_price : ℕ
min_price = 4_295_128_739

abbrev pub InDomain : ℕ → Type 0
InDomain p = (min_price ≤ p) × (p < max_price)

-- A tick of the range whose price is inside the domain.
abbrev pub InitializedTick : ℤ → Type 0
InitializedTick t =
    (min_tick ≤ℤ t)
    × (t ≤ℤ max_tick)
    × ((p : ℕ) × (get_sqrt_ratio_at_tick t ≡ ok (pos p)) × InDomain p)

abbrev pub AllInitialized : List ℤ → Type 0
AllInitialized [] = Unit {0}
AllInitialized (t ∷ ts) = InitializedTick t × AllInitialized ts

insert-AllInitialized :
    (t : ℤ) (ts : List ℤ) → InitializedTick t → AllInitialized ts → AllInitialized (insert t ts)
insert-AllInitialized t [] h hs = (h, tt)
insert-AllInitialized t (u ∷ us) h (hu, hs) = elim (Bool-cases (leb_ℤ t u)) [
  | inl le ↦ rw le (h, (hu, hs))
  | inr gt ↦ rw gt (hu, insert-AllInitialized t us h hs)
]

pub sort_ticks-AllInitialized : (ts : List ℤ) → AllInitialized ts → AllInitialized (sort_ticks ts)
sort_ticks-AllInitialized [] hs = tt
sort_ticks-AllInitialized (t ∷ ts) (h, hs) =
    insert-AllInitialized t (sort_ticks ts) h (sort_ticks-AllInitialized ts hs)

-- No tick, or one that is initialised.
abbrev pub MaybeTick : Option ℤ → Type 0
MaybeTick none = Unit {0}
MaybeTick (some t) = InitializedTick t

get_elem?-MaybeTick : (ts : List ℤ) (i : ℕ) → AllInitialized ts → MaybeTick (get_elem? ts i)
get_elem?-MaybeTick [] i hs = tt
get_elem?-MaybeTick (t ∷ ts) zero (h, hs) = h
get_elem?-MaybeTick (t ∷ ts) (suc i) (h, hs) = get_elem?-MaybeTick ts i hs

module _ (ticks : List ℤ) (hs : AllInitialized ticks) (current : ℤ) where
  search_down-MaybeTick :
      (fuel low high : ℕ) (r : Option ℤ)
      → MaybeTick r
      → MaybeTick (search_down fuel ticks current low high r)
  unfolding search_down
  search_down-MaybeTick zero low high r h = h
  search_down-MaybeTick (suc fuel) low high r h =
      let mid : ℕ = (low + high - 1) / 2 in
      let here = get_elem?-MaybeTick ticks mid hs in
      elim (ltb low high)
        as (λ b. MaybeTick (elim b [
          | true ↦ elim (is_at_most (get_elem? ticks mid) current) [
            | true ↦ search_down fuel ticks current (suc mid) high (get_elem? ticks mid)
            | false ↦ search_down fuel ticks current low mid r
          ]
          | false ↦ r
        ])) [
          | false ↦ h
          | true ↦
              elim (is_at_most (get_elem? ticks mid) current)
                as (λ b. MaybeTick (elim b [
                  | true ↦ search_down fuel ticks current (suc mid) high (get_elem? ticks mid)
                  | false ↦ search_down fuel ticks current low mid r
                ])) [
                  | true ↦ search_down-MaybeTick fuel (suc mid) high (get_elem? ticks mid) here
                  | false ↦ search_down-MaybeTick fuel low mid r h
                ]
        ]

  search_up-MaybeTick :
      (fuel low high : ℕ) (r : Option ℤ)
      → MaybeTick r
      → MaybeTick (search_up fuel ticks current low high r)
  unfolding search_up
  search_up-MaybeTick zero low high r h = h
  search_up-MaybeTick (suc fuel) low high r h =
      let mid : ℕ = (low + high - 1) / 2 in
      let here = get_elem?-MaybeTick ticks mid hs in
      elim (ltb low high)
        as (λ b. MaybeTick (elim b [
          | true ↦ elim (is_above (get_elem? ticks mid) current) [
            | true ↦ search_up fuel ticks current low mid (get_elem? ticks mid)
            | false ↦ search_up fuel ticks current (suc mid) high r
          ]
          | false ↦ r
        ])) [
          | false ↦ h
          | true ↦
              elim (is_above (get_elem? ticks mid) current)
                as (λ b. MaybeTick (elim b [
                  | true ↦ search_up fuel ticks current low mid (get_elem? ticks mid)
                  | false ↦ search_up fuel ticks current (suc mid) high r
                ])) [
                  | true ↦ search_up-MaybeTick fuel low mid (get_elem? ticks mid) here
                  | false ↦ search_up-MaybeTick fuel (suc mid) high r h
                ]
        ]

  pub next_initialized_tick-MaybeTick :
      (zero_for_one : Bool) → MaybeTick (next_initialized_tick ticks current zero_for_one)
  unfolding next_initialized_tick
  next_initialized_tick-MaybeTick true =
      search_down-MaybeTick (length ticks) 0 (length ticks) none tt
  next_initialized_tick-MaybeTick false =
      search_up-MaybeTick (length ticks) 0 (length ticks) none tt

-- The bounds of the search for the new tick meet the tick range.
pub normalise_ok :
    (a b : ℤ)
    → ((min_tick ≤ℤ a) ⊎ (min_tick ≤ℤ b))
    → ((a ≤ℤ max_tick) ⊎ (b ≤ℤ max_tick))
    → normalise_tick_search_bounds a b ≡ ok (max_ℤ min_tick (min_ℤ a b), min_ℤ max_tick (max_ℤ a b))
unfolding normalise_tick_search_bounds
normalise_ok a b low high = ground arith

-- The state during the loop: a price inside the domain, positive liquidity, and numbers for what remains
-- and for the output so far.
pub record Running (s : SwapState) : Type 0 where
  pub price : ℕ
  pub liquidity : ℕ
  pub remaining : ℕ
  pub calculated : ℕ
  pub at_price : s.sqrt_price ≡ pos price
  pub at_liquidity : s.liquidity ≡ pos liquidity
  pub at_remaining : s.remaining ≡ pos remaining
  pub at_calculated : s.calculated ≡ pos calculated
  pub in_domain : InDomain price
  pub liquid : 0 < liquidity

-- What the loop leaves: a price inside the domain and an output that is not negative.
abbrev pub Settled : SwapState → Type 0
Settled s =
    (price calculated : ℕ) × (s.sqrt_price ≡ pos price)
    × (s.calculated ≡ pos calculated)
    × InDomain price

-- The tick from which the price rises is in the range.
abbrev pub TickAbove : Bool → ℤ → Type 0
TickAbove true tick = Unit {0}
TickAbove false tick = min_tick ≤ℤ tick

tick_bounds_ok :
    (zero_for_one : Bool) (next : Option ℤ) (tick : ℤ)
    → MaybeTick next
    → TickAbove zero_for_one tick
    → let (lower, upper) = tick_bounds zero_for_one next tick in
      ((min_tick ≤ℤ lower) ⊎ (min_tick ≤ℤ upper)) × ((lower ≤ℤ max_tick) ⊎ (upper ≤ℤ max_tick))
tick_bounds_ok true none tick h above = (inl (omega arith), inl (omega arith))
tick_bounds_ok true (some t) tick (low, high, _) above = (inl low, inl high)
tick_bounds_ok false none tick h above = (inl above, inr (omega arith))
tick_bounds_ok false (some t) tick (low, high, _) above = (inl above, inr (omega (int_laws, high)))

-- The branch that leaves the loop never throws.
pub derive_tick_ok :
    (zero_for_one : Bool) (next : Option ℤ) (s : SwapState) (price : ℕ)
    → s.sqrt_price ≡ pos price
    → InDomain price
    → MaybeTick next
    → TickAbove zero_for_one s.tick
    → (t : ℤ) × (derive_tick zero_for_one next s ≡ ok (record s { tick = t }, false))
unfolding derive_tick
derive_tick_ok zero_for_one next s price at_price (low, high) h above =
    let (lower, upper) = tick_bounds zero_for_one next s.tick in
    let (from, to) = tick_bounds_ok zero_for_one next s.tick h above in
    let (t, found, _, _) =
      get_tick_at_sqrt_ratio_in_range_bracket price low high lower upper
        (max_ℤ min_tick (min_ℤ lower upper)) (min_ℤ max_tick (max_ℤ lower upper))
        (normalise_ok lower upper from to) in
    (t, rw at_price (rw (found, ◌>>=◌) refl))
