-- ===== src/Tests/Routing.antt =====
-- src/routing at a concrete route.
use ts_hsync_arb.Prelude.{ℕ, ◌≡◌, refl, none, some, List, [], ◌∷◌}
use ts_hsync_arb.Prelude.Int.{ℤ, pos, ◌-ℤ◌, ◌≤ℤ◌}
use ts_hsync_arb.Prelude.Number.{Number, whole}
use ts_hsync_arb.Prelude.Keys.{nat_key}
use ts_hsync_arb.Routing.PathFreshness.{PoolEdge, get_path_freshness, scan_edges}
use ts_hsync_arb.Routing.PathFreshness.Bounds.{Timed, get_path_freshness-fresh}

abbrev cache : List (ℕ × Number)
cache = (1, whole (pos 1000)) ∷ (2, whole (pos 1400)) ∷ []

abbrev edges : List (PoolEdge ℕ)
edges =
    record { normalized = some 1; raw = some 1 } ∷ record { normalized = some 2; raw = none } ∷ []

get_path_freshness-fresh_example :
    (edge : PoolEdge ℕ) × (rest : List (PoolEdge ℕ)) × (oldest : ℤ) × (newest : ℤ) × (some edges
      ≡ some (edge ∷ rest))
    × Timed cache oldest newest (edge ∷ rest)
    × (pos 2000 -ℤ oldest ≡ pos 1000)
    × (newest -ℤ oldest ≡ pos 400)
    × (pos 1000 ≤ℤ pos 5000)
    × (pos 400 ≤ℤ pos 500)
unfolding get_path_freshness scan_edges
get_path_freshness-fresh_example =
    get_path_freshness-fresh cache (pos 2000) (pos 5000) (pos 500) (pos 1000) (pos 400) (some edges)
      refl
