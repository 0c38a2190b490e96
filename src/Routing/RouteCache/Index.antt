-- ===== src/Routing/RouteCache/Index.antt =====
-- The pool index of src/routing/route_cache.ts: what _rebuildIndex records and getByPools reads.
use ts_hsync_arb.Prelude.{
  ℕ, zero, suc, ◌+◌, ◌<◌, ◌≡◌, arith, refl, Bool, false, ◌||◌, ◌&&◌, Option, none, some, List, [],
  ◌∷◌, ◌==◌, get_elem?, Option-cases, inl, inr, subst,
}
use ts_hsync_arb.Prelude.Keys.{Key, nat_key, get, get-set}
use ts_hsync_arb.Prelude.Arrays.{any, present, has, add}
use ts_hsync_arb.Prelude.Arrays.Member.{has-add}
use ts_hsync_arb.Routing.RouteIdentity.{EdgeIdentity}
use ts_hsync_arb.Routing.RouteCache.{
  CachedEntry, add_route, index_edges, index_routes, add_all, collect,
}

has-add_all :
    (j : ℕ) (found indexes : List ℕ)
    → has j (add_all found indexes) ≡ (has j found || has j indexes)
has-add_all j [] indexes = refl
has-add_all j (i ∷ found) indexes =
    ground (arith, has-add_all j found (add i indexes), has-add j i indexes)

module _ {K : Type 0} ⦃key : Key K⦄ where
  abbrev pub edge_is : K → EdgeIdentity K → Bool
  edge_is pool edge = elim edge.pool_address [ none ↦ false | some p ↦ key.same p pool ]

  -- Some edge of the route is of the pool.
  abbrev pub touches_pool : K → CachedEntry K → Bool
  touches_pool pool entry = any (edge_is pool) entry.path.edges

  -- Some of the pools is the pool of an edge of the route.
  abbrev pub touches : List (Option K) → CachedEntry K → Bool
  touches pools entry = any (λ pool. touches_pool pool entry) (present pools)

  -- The index has route `j` under the pool.
  abbrev pub hits : K → ℕ → List (K × List ℕ) → Bool
  hits pool j index = elim (get pool index) [ none ↦ false | some routes ↦ has j routes ]

  hits-add_route :
      (pool q : K) (i j : ℕ) (index : List (K × List ℕ))
      → hits pool j (add_route i q index) ≡ ((key.same q pool && (i == j)) || hits pool j index)
  hits-add_route pool q i j index = elim (Option-cases (get q index)) [
    | inl e ↦
        rw (add_route, e)
          (rw (hits, get-set q pool (i ∷ []) index) (ground (arith, e, key.same_iff q pool)))
    | inr (routes, e) ↦
        rw (add_route, e)
          (rw (hits, get-set q pool (add i routes) index)
            (ground (arith, e, key.same_iff q pool, has-add j i routes)))
  ]

  hits-index_edges :
      (pool : K) (i j : ℕ) (edges : List (EdgeIdentity K)) (index : List (K × List ℕ))
      → hits pool j (index_edges i edges index)
        ≡ (((i == j) && any (edge_is pool) edges) || hits pool j index)
  hits-index_edges pool i j [] index = ground arith
  hits-index_edges pool i j (edge ∷ edges) index = elim (Option-cases edge.pool_address) [
    | inl e ↦ rw e (rw (hits-index_edges pool i j edges index) (ground arith))
    | inr (q, e) ↦ rw e (
        rw (hits-index_edges pool i j edges (add_route i q index), hits-add_route pool q i j index)
          (ground arith))
  ]

  -- Route `j` touches the pool, where the first of the routes has number `i`.
  abbrev touched_from : K → ℕ → List (CachedEntry K) → ℕ → Bool
  touched_from pool i [] j = false
  touched_from pool i (route ∷ routes) j =
      ((i == j) && touches_pool pool route) || touched_from pool (suc i) routes j

  pub hits-index_routes :
      (pool : K) (i j : ℕ) (routes : List (CachedEntry K)) (index : List (K × List ℕ))
      → hits pool j (index_routes i routes index)
        ≡ (touched_from pool i routes j || hits pool j index)
  hits-index_routes pool i j [] index = refl
  hits-index_routes pool i j (route ∷ routes) index = ground (
    arith,
    hits-index_edges pool i j route.path.edges index,
    hits-index_routes pool (suc i) j routes (index_edges i route.path.edges index),
  )

  -- Route `j` is under one of the pools.
  abbrev pub hit_by : List (Option K) → ℕ → List (K × List ℕ) → Bool
  hit_by pools j index = any (λ pool. hits pool j index) (present pools)

  pub has-collect :
      (j : ℕ) (index : List (K × List ℕ)) (changed : List (Option K)) (indexes : List ℕ)
      → has j (collect index changed indexes) ≡ (hit_by changed j index || has j indexes)
  has-collect j index [] indexes = refl
  has-collect j index (none ∷ changed) indexes = has-collect j index changed indexes
  has-collect j index (some pool ∷ changed) indexes = elim (Option-cases (get pool index)) [
    | inl e ↦ rw e (rw (hits, e) (has-collect j index changed indexes))
    | inr (found, e) ↦ rw e (
        rw (has-collect j index changed (add_all found indexes), has-add_all j found indexes)
          (ground (arith, e)))
  ]

  -- Route `k` further on in the list.
  abbrev pub touches_at : K → Option (CachedEntry K) → Bool
  touches_at pool none = false
  touches_at pool (some entry) = touches_pool pool entry

  touched_from_below :
      (pool : K) (i j : ℕ) (routes : List (CachedEntry K))
      → j < i
      → touched_from pool i routes j ≡ false
  touched_from_below pool i j [] h = refl
  touched_from_below pool i j (route ∷ routes) h =
      ground (arith, touched_from_below pool (suc i) j routes)

  pub touched_from_lem :
      (pool : K) (i k : ℕ) (routes : List (CachedEntry K))
      → touched_from pool i routes (i + k) ≡ touches_at pool (get_elem? routes k)
  touched_from_lem pool i k [] = refl
  touched_from_lem pool i zero (route ∷ routes) =
      ground (arith, touched_from_below pool (suc i) i routes)
  touched_from_lem pool i (suc k) (route ∷ routes) =
      let next : touched_from pool (suc i) routes (i + suc k)
          ≡ touches_at pool (get_elem? routes k) =
        subst (λ n. touched_from pool (suc i) routes n ≡ touches_at pool (get_elem? routes k))
          (omega arith) (touched_from_lem pool (suc i) k routes) in
      ground arith
