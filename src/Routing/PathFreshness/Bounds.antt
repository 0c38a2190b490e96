-- ===== src/Routing/PathFreshness/Bounds.antt =====
-- getPathFreshness of src/routing/path_freshness.ts: what a fresh verdict says of the timestamps.
use ts_hsync_arb.Prelude.{
  ◌≡◌, ◌⊎◌, arith, refl, subst, Option, none, some, List, [], ◌∷◌, Bool-cases, Option-cases, inl,
  inr,
}
use ts_hsync_arb.Prelude.Int.{ℤ, ◌-ℤ◌, ◌≤ℤ◌, ltb_ℤ, le_of_ltb}
use ts_hsync_arb.Prelude.Number.{Number, whole, other}
use ts_hsync_arb.Prelude.Keys.{Key}
use ts_hsync_arb.Routing.PathFreshness.{
  PoolEdge, invalid_pool_address, missing_pool_timestamp, fresh, stale, or_missing, widen, judge,
  lookup_pool_state, scan_edges, get_path_freshness,
}

-- A timestamp that the loop has widened to is not lost.
widen-covers :
    (range : Option (ℤ × ℤ)) (ts : ℤ) → ((widen range ts).0 ≤ℤ ts) × (ts ≤ℤ (widen range ts).1)
widen-covers none ts = (omega arith, omega arith)
widen-covers (some (oldest, newest)) ts = (ground arith, ground arith)

widen-grows :
    (oldest newest ts : ℤ)
    → ((widen (some (oldest, newest)) ts).0 ≤ℤ oldest)
      × (newest ≤ℤ (widen (some (oldest, newest)) ts).1)
widen-grows oldest newest ts = (ground arith, ground arith)

judge-fresh :
    (now max_age max_skew oldest newest age skew : ℤ)
    → judge now max_age max_skew (oldest, newest) ≡ fresh age skew
    → (now -ℤ oldest ≡ age) × (newest -ℤ oldest ≡ skew) × (age ≤ℤ max_age) × (skew ≤ℤ max_skew)
judge-fresh now max_age max_skew oldest newest age skew e =
    elim (Bool-cases (ltb_ℤ max_age (now -ℤ oldest))) [
      | inl old ↦ absurd (grind (arith, old))
      | inr young ↦ elim (Bool-cases (ltb_ℤ max_skew (newest -ℤ oldest))) [
        | inl wide ↦ absurd (grind (arith, young, wide))
        | inr narrow ↦
            let verdict : fresh (now -ℤ oldest) (newest -ℤ oldest) ≡ fresh age skew =
              rw (young, narrow) at e in
            let at_age : now -ℤ oldest ≡ age = cc in
            let at_skew : newest -ℤ oldest ≡ skew = cc in
            (
              at_age,
              at_skew,
              subst (λ v. v ≤ℤ max_age) at_age (le_of_ltb max_age (now -ℤ oldest) young),
              subst (λ v. v ≤ℤ max_skew) at_skew (le_of_ltb max_skew (newest -ℤ oldest) narrow),
            )
      ]
    ]

Number-cases : (n : Number) → (n ≡ other) ⊎ ((z : ℤ) × (n ≡ whole z))
Number-cases other = inl refl
Number-cases (whole z) = inr (z, refl)

module _ {K : Type 0} ⦃key : Key K⦄ (cache : List (K × Number)) where
  -- Every edge has a normalised address whose state has a timestamp between the two.
  abbrev pub Timed : ℤ → ℤ → List (PoolEdge K) → Type 0
  Timed oldest newest [] = Unit {0}
  Timed oldest newest (edge ∷ edges) =
      ((k : K) × (ts : ℤ) × (edge.normalized ≡ some k)
        × (or_missing (lookup_pool_state cache k edge.raw) ≡ whole ts)
        × (oldest ≤ℤ ts)
        × (ts ≤ℤ newest))
      × Timed oldest newest edges

  -- What a fresh verdict says of the edges still to come.
  abbrev Within : ℤ → ℤ → ℤ → ℤ → ℤ → List (PoolEdge K) → ℤ → ℤ → Type 0
  Within now max_age max_skew age skew edges low high =
      (oldest : ℤ) × (newest : ℤ) × (oldest ≤ℤ low)
      × (high ≤ℤ newest)
      × Timed oldest newest edges
      × (now -ℤ oldest ≡ age)
      × (newest -ℤ oldest ≡ skew)
      × (age ≤ℤ max_age)
      × (skew ≤ℤ max_skew)

  module _ (now max_age max_skew age skew : ℤ) where
    scan_edges_step :
        (edge : PoolEdge K) (edges : List (PoolEdge K)) (range : Option (ℤ × ℤ))
        → scan_edges cache now max_age max_skew (edge ∷ edges) range ≡ fresh age skew
        → (k : K) × (ts : ℤ) × (edge.normalized ≡ some k)
          × (or_missing (lookup_pool_state cache k edge.raw) ≡ whole ts)
          × (scan_edges cache now max_age max_skew edges (some (widen range ts)) ≡ fresh age skew)
    unfolding scan_edges
    scan_edges_step edge edges range e = elim (Option-cases edge.normalized) [
      | inl invalid ↦
          let no : stale invalid_pool_address ≡ fresh age skew = rw (invalid, scan_edges) at e in
          absurd cc
      | inr (k, at_k) ↦ elim (Number-cases (or_missing (lookup_pool_state cache k edge.raw))) [
        | inl missing ↦
            let no : stale missing_pool_timestamp ≡ fresh age skew =
              rw (at_k, scan_edges, missing) at e in
            absurd cc
        | inr (ts, at_ts) ↦ (k, ts, at_k, at_ts, rw (at_k, scan_edges, at_ts) at e)
      ]
    ]

    scan_edges-Within :
        (edges : List (PoolEdge K)) (low high : ℤ)
        → scan_edges cache now max_age max_skew edges (some (low, high)) ≡ fresh age skew
        → Within now max_age max_skew age skew edges low high
    unfolding scan_edges
    scan_edges-Within [] low high e =
        let (at_age, at_skew, young, narrow) =
          judge-fresh now max_age max_skew low high age skew e in
        (low, high, omega arith, omega arith, tt, at_age, at_skew, young, narrow)
    scan_edges-Within (edge ∷ edges) low high e =
        let (k, ts, at_k, at_ts, rest) = scan_edges_step edge edges (some (low, high)) e in
        let (covers_low, covers_high) = widen-covers (some (low, high)) ts in
        let (grows_low, grows_high) = widen-grows low high ts in
        let (oldest, newest, below, above, timed, at_age, at_skew, young, narrow) =
          scan_edges-Within edges (widen (some (low, high)) ts).0 (widen (some (low, high)) ts).1
            rest in
        (
          oldest,
          newest,
          omega arith,
          omega arith,
          ((k, ts, at_k, at_ts, omega arith, omega arith), timed),
          at_age,
          at_skew,
          young,
          narrow,
        )

  -- Where getPathFreshness says that a route is fresh, the route has edges, every edge has a valid pool
  -- address whose state has a timestamp between an oldest and a newest one, the age is the time since
  -- the oldest, the skew the distance of the two, and both are within the limits given.
  pub get_path_freshness-fresh :
      (now max_age max_skew age skew : ℤ) (edges : Option (List (PoolEdge K)))
      → get_path_freshness cache now max_age max_skew edges ≡ fresh age skew
      → (edge : PoolEdge K) × (rest : List (PoolEdge K)) × (oldest : ℤ) × (newest : ℤ) × (edges
          ≡ some (edge ∷ rest))
        × Timed oldest newest (edge ∷ rest)
        × (now -ℤ oldest ≡ age)
        × (newest -ℤ oldest ≡ skew)
        × (age ≤ℤ max_age)
        × (skew ≤ℤ max_skew)
  unfolding get_path_freshness scan_edges
  get_path_freshness-fresh now max_age max_skew age skew none e = absurd cc
  get_path_freshness-fresh now max_age max_skew age skew (some []) e = absurd cc
  get_path_freshness-fresh now max_age max_skew age skew (some (edge ∷ edges)) e =
      let (k, ts, at_k, at_ts, rest) =
        scan_edges_step now max_age max_skew age skew edge edges none e in
      let (oldest, newest, below, above, timed, at_age, at_skew, young, narrow) =
        scan_edges-Within now max_age max_skew age skew edges ts ts rest in
      (
        edge,
        edges,
        oldest,
        newest,
        refl,
        ((k, ts, at_k, at_ts, below, above), timed),
        at_age,
        at_skew,
        young,
        narrow,
      )
