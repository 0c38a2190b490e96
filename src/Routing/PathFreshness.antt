-- ===== src/Routing/PathFreshness.antt =====
-- src/routing/path_freshness.ts: the test of a route's pool states by their timestamps. Times are whole
-- milliseconds. The state cache holds the timestamp of a pool's state, `other` where it is not a finite
-- number. A pool address enters with its normalised form and, where it is a string, as itself.
pub mod Bounds
use ts_hsync_arb.Prelude.{Bool, true, false, Option, none, some, List, [], ◌∷◌, if◌then◌else◌}
use ts_hsync_arb.Prelude.Int.{ℤ, ◌-ℤ◌, ltb_ℤ, min_ℤ, max_ℤ}
use ts_hsync_arb.Prelude.Number.{Number, whole, other}
use ts_hsync_arb.Prelude.Keys.{Key, get}

pub record PoolEdge {ℓ} (K : Type ℓ) : Type ℓ where
  pub normalized : Option K
  pub raw : Option K

pub data Staleness : Type 0 where
  missing_route_edges invalid_pool_address missing_pool_timestamp : Staleness
  too_old too_skewed : ℤ → ℤ → Staleness

-- `ok: true` with the age and the skew, or the reason.
pub data Freshness : Type 0 where
  fresh : ℤ → ℤ → Freshness
  stale : Staleness → Freshness

abbrev pub or_missing : Option Number → Number
or_missing none = other
or_missing (some n) = n

-- The oldest and the newest timestamp so far; `none` stands for Infinity and -Infinity.
abbrev pub widen : Option (ℤ × ℤ) → ℤ → ℤ × ℤ
widen none ts = (ts, ts)
widen (some (oldest, newest)) ts =
    (if ltb_ℤ ts oldest then ts else oldest, if ltb_ℤ newest ts then ts else newest)

-- The verdict on the oldest and the newest timestamp.
abbrev pub judge : ℤ → ℤ → ℤ → ℤ × ℤ → Freshness
judge now max_age max_skew (oldest, newest) =
    let age = now -ℤ oldest in
    let skew = newest -ℤ oldest in
    if ltb_ℤ max_age age
    then stale (too_old age skew)
    else if ltb_ℤ max_skew skew
    then stale (too_skewed age skew)
    else fresh age skew

module _ {ℓ} {K : Type ℓ} ⦃key : Key K⦄ (cache : List (K × Number)) where
  -- lookupPoolState, for a normalised address: the timestamp, if there is a state.
  abbrev pub lookup_pool_state : K → Option K → Option Number
  lookup_pool_state normalized raw = elim (get normalized cache) [
    | some ts ↦ some ts
    | none ↦ elim raw [ none ↦ none | some k ↦ get k cache ]
  ]

  -- The loop of getPathFreshness over the edges, then the verdict.
  unfoldable pub scan_edges : ℤ → ℤ → ℤ → List (PoolEdge K) → Option (ℤ × ℤ) → Freshness
  scan_edges now max_age max_skew [] none = stale missing_route_edges
  scan_edges now max_age max_skew [] (some range) = judge now max_age max_skew range
  scan_edges now max_age max_skew (edge ∷ edges) range = elim edge.normalized [
    | none ↦ stale invalid_pool_address
    | some normalized ↦ elim (or_missing (lookup_pool_state normalized edge.raw)) [
      | other ↦ stale missing_pool_timestamp
      | whole ts ↦ scan_edges now max_age max_skew edges (some (widen range ts))
    ]
  ]

  -- getPathFreshness; `edges` is none where the path has no array of edges.
  unfoldable pub get_path_freshness : ℤ → ℤ → ℤ → Option (List (PoolEdge K)) → Freshness
  unfolding scan_edges
  get_path_freshness now max_age max_skew none = stale missing_route_edges
  get_path_freshness now max_age max_skew (some edges) = scan_edges now max_age max_skew edges none
