-- ===== src/Math/InitializedTicks.antt =====
-- src/math/uniswap_v3.ts: the sorted ticks of a pool and the search for the next initialised one. The
-- cache of getSortedTicks is left out: it returns what was sorted for the same map and tick version.
pub mod Order
pub mod Scan
use ts_hsync_arb.Prelude.{
  ℕ, zero, suc, ◌+◌, ◌-◌, ◌/◌, Bool, true, false, Option, none, some, List, [], ◌∷◌, ltb, length,
  get_elem?, if◌then◌else◌, map,
}
use ts_hsync_arb.Prelude.Int.{ℤ, ltb_ℤ, leb_ℤ}

-- `sortedTicks[mid] <= currentTick` and `sortedTicks[mid] > currentTick`, false out of bounds.
abbrev pub is_at_most : Option ℤ → ℤ → Bool
is_at_most none current = false
is_at_most (some t) current = leb_ℤ t current

abbrev pub is_above : Option ℤ → ℤ → Bool
is_above none current = false
is_above (some t) current = ltb_ℤ current t

-- The two loops of nextInitializedTickOptimized. `high` is kept one larger, so that it is a number.
unfoldable pub search_down : ℕ → List ℤ → ℤ → ℕ → ℕ → Option ℤ → Option ℤ
search_down zero ticks current low high result = result
search_down (suc fuel) ticks current low high result =
    let mid = (low + high - 1) / 2 in
    elim (ltb low high) [
      | true ↦ elim (is_at_most (get_elem? ticks mid) current) [
        | true ↦ search_down fuel ticks current (suc mid) high (get_elem? ticks mid)
        | false ↦ search_down fuel ticks current low mid result
      ]
      | false ↦ result
    ]

unfoldable pub search_up : ℕ → List ℤ → ℤ → ℕ → ℕ → Option ℤ → Option ℤ
search_up zero ticks current low high result = result
search_up (suc fuel) ticks current low high result =
    let mid = (low + high - 1) / 2 in
    elim (ltb low high) [
      | true ↦ elim (is_above (get_elem? ticks mid) current) [
        | true ↦ search_up fuel ticks current low mid (get_elem? ticks mid)
        | false ↦ search_up fuel ticks current (suc mid) high result
      ]
      | false ↦ result
    ]

-- nextInitializedTickOptimized; each round halves the interval, so its length is enough fuel.
unfoldable pub next_initialized_tick : List ℤ → ℤ → Bool → Option ℤ
next_initialized_tick ticks current zero_for_one =
    if zero_for_one
    then search_down (length ticks) ticks current 0 (length ticks) none
    else search_up (length ticks) ticks current 0 (length ticks) none

-- The keys of the tick map in ascending order.
abbrev pub insert : ℤ → List ℤ → List ℤ
insert t [] = t ∷ []
insert t (u ∷ us) = if leb_ℤ t u then t ∷ u ∷ us else u ∷ insert t us

abbrev pub sort_ticks : List ℤ → List ℤ
sort_ticks [] = []
sort_ticks (t ∷ ts) = insert t (sort_ticks ts)

-- getSortedTicks
unfoldable pub get_sorted_ticks : List (ℤ × ℤ) → List ℤ
get_sorted_ticks ticks = sort_ticks (map (λ entry. entry.0) ticks)
