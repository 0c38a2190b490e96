-- ===== src/Math/InitializedTicks/Scan.antt =====
-- nextInitializedTickOptimized of src/math/uniswap_v3.ts against a scan of the ticks.
use ts_hsync_arb.Prelude.{
  ℕ, zero, suc, ◌+◌, ◌-◌, ◌/◌, ◌≤◌, ◌<◌, ◌≡◌, arith, refl, sym, subst, true, false, Option, none,
  some, List, [], ◌∷◌, ltb, length, get_elem?, if◌then◌else◌, Bool-cases, inl, inr, map,
}
use ts_hsync_arb.Prelude.Int.{ℤ, leb_ℤ, ltb_ℤ, le_of_leb, leb_of_le, leb_of_lt, lt_of_leb}
use ts_hsync_arb.Math.InitializedTicks.{
  search_down, search_up, next_initialized_tick, is_at_most, is_above, sort_ticks, get_sorted_ticks,
}
use ts_hsync_arb.Math.InitializedTicks.Order.{Ascending, sort_ticks-Ordered, Ordered-Ascending}

-- The largest tick at or below `current` and the smallest above it, by a scan of an ascending list.
pub last_at_most : List ℤ → ℤ → Option ℤ
last_at_most [] current = none
last_at_most (t ∷ ts) current = elim (last_at_most ts current) [
  | none ↦ if leb_ℤ t current then some t else none
  | some u ↦ some u
]

pub first_above : List ℤ → ℤ → Option ℤ
first_above [] current = none
first_above (t ∷ ts) current = if ltb_ℤ current t then some t else first_above ts current

-- The element before position `k`.
abbrev pub before : List ℤ → ℕ → Option ℤ
before ticks zero = none
before ticks (suc k) = get_elem? ticks k

in_bounds : (ticks : List ℤ) (i : ℕ) → i < length ticks → (t : ℤ) × (get_elem? ticks i ≡ some t)
in_bounds [] i h = absurd (omega arith)
in_bounds (t ∷ ts) zero h = (t, refl)
in_bounds (t ∷ ts) (suc i) h = in_bounds ts i (omega arith)

-- `current` splits the ticks at position `k`.
abbrev Low : List ℤ → ℤ → ℕ → Type 0
Low ticks current k = (i : ℕ) (t : ℤ) → i < k → get_elem? ticks i ≡ some t → leb_ℤ t current ≡ true

abbrev High : List ℤ → ℤ → ℕ → Type 0
High ticks current k =
    (i : ℕ) (t : ℤ) → k ≤ i → get_elem? ticks i ≡ some t → leb_ℤ t current ≡ false

last_at_most-split :
    (ticks : List ℤ) (current : ℤ) (k : ℕ)
    → k ≤ length ticks
    → Low ticks current k
    → High ticks current k
    → last_at_most ticks current ≡ before ticks k
unfolding last_at_most
last_at_most-split [] current zero h low high = refl
last_at_most-split [] current (suc k) h low high = absurd (omega arith)
last_at_most-split (t ∷ ts) current zero h low high =
    rw
      (last_at_most-split ts current zero (omega arith) (λ i u lt _. absurd (omega arith))
        (λ i u _ e. high (suc i) u (omega arith) e))
      (rw (high zero t (omega arith) refl) refl)
last_at_most-split (t ∷ ts) current (suc zero) h low high =
    rw
      (last_at_most-split ts current zero (omega arith) (λ i u lt _. absurd (omega arith))
        (λ i u _ e. high (suc i) u (omega arith) e))
      (rw (low zero t (omega arith) refl) refl)
last_at_most-split (t ∷ ts) current (suc (suc k)) h low high =
    let (u, e) = in_bounds ts k (omega arith) in
    rw
      (last_at_most-split ts current (suc k) (omega arith)
        (λ i v lt e. low (suc i) v (omega arith) e) (λ i v le e. high (suc i) v (omega arith) e))
      (rw e refl)

first_above-split :
    (ticks : List ℤ) (current : ℤ) (k : ℕ)
    → Low ticks current k
    → High ticks current k
    → first_above ticks current ≡ get_elem? ticks k
unfolding first_above
first_above-split [] current k low high = refl
first_above-split (t ∷ ts) current zero low high =
    let e : ltb_ℤ current t ≡ true = ground (arith, high zero t (omega arith) refl) in rw e refl
first_above-split (t ∷ ts) current (suc k) low high =
    let e : ltb_ℤ current t ≡ false = ground (arith, low zero t (omega arith) refl) in
    rw e (
      first_above-split ts current k (λ i v lt e. low (suc i) v (omega arith) e)
        (λ i v le e. high (suc i) v (omega arith) e))

module _ (ticks : List ℤ) (asc : Ascending ticks) (current : ℤ) where
  -- What a test at `mid` says of the ticks on either side.
  Low-of_test :
      (m : ℕ) (t : ℤ)
      → get_elem? ticks m ≡ some t
      → leb_ℤ t current ≡ true
      → Low ticks current (suc m)
  Low-of_test m t at_m le i u lt e =
      leb_of_le u current (omega (arith, asc i m u t (omega arith) e at_m, le_of_leb t current le))

  High-of_test :
      (m : ℕ) (t : ℤ) → get_elem? ticks m ≡ some t → leb_ℤ t current ≡ false → High ticks current m
  High-of_test m t at_m gt i u le e =
      leb_of_lt u current (omega (arith, asc m i t u le at_m e, lt_of_leb t current gt))

  search_down_lem :
      (fuel low high : ℕ)
      → low ≤ high
      → high ≤ length ticks
      → high ≤ low + fuel
      → Low ticks current low
      → High ticks current high
      → search_down fuel ticks current low high (before ticks low) ≡ last_at_most ticks current
  unfolding search_down
  search_down_lem zero low high le top enough lows highs = sym (
      last_at_most-split ticks current low (omega arith) lows
        (λ i t k e. highs i t (omega arith) e))
  search_down_lem (suc fuel) low high le top enough lows highs = elim (Bool-cases (ltb low high)) [
    | inr done ↦
        rw (done, search_down)
          (sym (
            last_at_most-split ticks current low (omega arith) lows
              (λ i t k e. highs i t (ground arith) e)))
    | inl inside ↦
        let lt : low < high = ground arith in
        let mid : ℕ = (low + high - 1) / 2 in
        let (t, at_mid) = in_bounds ticks mid (omega arith) in
        elim (Bool-cases (leb_ℤ t current)) [
          | inl under ↦
              let test : is_at_most (get_elem? ticks mid) current ≡ true = rw at_mid under in
              rw (inside, search_down)
                (rw test (
                  search_down_lem fuel (suc mid) high (omega arith) top (omega arith)
                    (Low-of_test mid t at_mid under) highs))
          | inr over ↦
              let test : is_at_most (get_elem? ticks mid) current ≡ false = rw at_mid over in
              rw (inside, search_down)
                (rw test (
                  search_down_lem fuel low mid (omega arith) (omega arith) (omega arith) lows
                    (High-of_test mid t at_mid over)))
        ]
  ]

  search_up_lem :
      (fuel low high : ℕ)
      → low ≤ high
      → high ≤ length ticks
      → high ≤ low + fuel
      → Low ticks current low
      → High ticks current high
      → search_up fuel ticks current low high (get_elem? ticks high) ≡ first_above ticks current
  unfolding search_up
  search_up_lem zero low high le top enough lows highs =
      sym (first_above-split ticks current high (λ i t k e. lows i t (omega arith) e) highs)
  search_up_lem (suc fuel) low high le top enough lows highs = elim (Bool-cases (ltb low high)) [
    | inr done ↦
        rw (done, search_up)
          (sym (first_above-split ticks current high (λ i t k e. lows i t (ground arith) e) highs))
    | inl inside ↦
        let lt : low < high = ground arith in
        let mid : ℕ = (low + high - 1) / 2 in
        let (t, at_mid) = in_bounds ticks mid (omega arith) in
        elim (Bool-cases (leb_ℤ t current)) [
          | inl under ↦
              let not_above : ltb_ℤ current t ≡ false = ground arith in
              let test : is_above (get_elem? ticks mid) current ≡ false = rw at_mid not_above in
              rw (inside, search_up)
                (rw test (
                  search_up_lem fuel (suc mid) high (omega arith) top (omega arith)
                    (Low-of_test mid t at_mid under) highs))
          | inr over ↦
              let above : ltb_ℤ current t ≡ true = ground arith in
              let test : is_above (get_elem? ticks mid) current ≡ true = rw at_mid above in
              rw (inside, search_up)
                (rw test (
                  search_up_lem fuel low mid (omega arith) (omega arith) (omega arith) lows
                    (High-of_test mid t at_mid over)))
        ]
  ]

out_of_bounds : (ticks : List ℤ) (i : ℕ) → length ticks ≤ i → get_elem? ticks i ≡ none
out_of_bounds [] i h = refl
out_of_bounds (t ∷ ts) zero h = absurd (omega arith)
out_of_bounds (t ∷ ts) (suc i) h = out_of_bounds ts i (omega arith)

-- On the sorted keys of any tick map, the binary search finds the largest tick at or below the current
-- one when the price falls, and the smallest tick above it when the price rises, as a scan of all
-- ticks does; it finds none exactly where the scan does.
pub next_initialized_tick-scan :
    (ticks : List (ℤ × ℤ)) (current : ℤ)
    → let sorted = get_sorted_ticks ticks in
      (next_initialized_tick sorted current true ≡ last_at_most sorted current)
      × (next_initialized_tick sorted current false ≡ first_above sorted current)
unfolding next_initialized_tick get_sorted_ticks
next_initialized_tick-scan ticks current =
    let sorted : List ℤ = sort_ticks (map (λ entry. entry.0) ticks) in
    let asc = Ordered-Ascending sorted (sort_ticks-Ordered (map (λ entry. entry.0) ticks)) in
    let past = out_of_bounds sorted (length sorted) (omega arith) in
    let lows : Low sorted current 0 = λ i t lt e. absurd (omega arith) in
    let highs : High sorted current (length sorted) =
      λ i t le e. absurd (cc (out_of_bounds sorted i le)) in
    (
      search_down_lem sorted asc current (length sorted) 0 (length sorted) (omega arith)
          (omega arith) (omega arith) lows highs,
      subst
          (λ r.
            search_up (length sorted) sorted current 0 (length sorted) r
            ≡ first_above sorted current)
          past
          (search_up_lem sorted asc current (length sorted) 0 (length sorted) (omega arith)
            (omega arith) (omega arith) lows highs),
    )
