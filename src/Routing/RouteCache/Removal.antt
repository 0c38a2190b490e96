-- ===== src/Routing/RouteCache/Removal.antt =====
-- removeByPools of src/routing/route_cache.ts.
use ts_hsync_arb.Prelude.{
  ◌+◌, ◌-◌, ◌≤◌, ◌≡◌, refl, ap, subst, ◌∙◌, arith, Bool, true, false, not, ◌&&◌, Option, List, [],
  ◌∷◌, ltb, ◌==◌, ◌||◌, length, Bool-cases, Option-cases, inl, inr,
}
use ts_hsync_arb.Prelude.Keys.{Key}
use ts_hsync_arb.Prelude.Arrays.{every, any, filter, present}
use ts_hsync_arb.Prelude.Arrays.Member.{
  In, first, filter-length, length-filter, every-filter, every-In,
}
use ts_hsync_arb.Routing.RouteIdentity.{EdgeIdentity}
use ts_hsync_arb.Routing.RouteCache.{
  CachedEntry, RouteCache, clear_of, edge_not_in, has_pool, keep_routes, rebuild_index,
  remove_by_pools, get_by_pools,
}
use ts_hsync_arb.Routing.RouteCache.Index.{edge_is, touches, touches_pool}
use ts_hsync_arb.Routing.RouteCache.Query.{get_by_pools_lem}
use ts_hsync_arb.Routing.RouteCache.Latest.{valid}
use ts_hsync_arb.Routing.RouteCache.Invariant.{
  IsConsistent, keep_routes_cases, keep_routes-IsConsistent,
}

module _ {A : Type 0} where
  filter_same :
      (v p q : A → Bool) (xs : List A)
      → ((x : A) → v x ≡ true → p x ≡ q x)
      → every v xs ≡ true
      → filter p xs ≡ filter q xs
  filter_same v p q [] h vs = refl
  filter_same v p q (x ∷ xs) h vs =
      let here : v x ≡ true = ground (arith, vs) in
      let rest = filter_same v p q xs h (ground (arith, vs)) in rw (h x here, rest) refl

  filter_all : (p : A → Bool) (xs : List A) → every p xs ≡ true → filter p xs ≡ xs
  filter_all p [] h = refl
  filter_all p (x ∷ xs) h = ground (arith, h, filter_all p xs)

  no_member : (xs : List A) → ((x : A) → In x xs → ⊥) → xs ≡ []
  no_member [] h = refl
  no_member (x ∷ xs) h = absurd (h x (first xs))

module _ {K : Type 0} ⦃key : Key K⦄ where
  every-edge_not_in :
      (pool : K) (blocked : List K) (edges : List (EdgeIdentity K))
      → every (edge_not_in (pool ∷ blocked)) edges
        ≡ (not (any (edge_is pool) edges) && every (edge_not_in blocked) edges)
  every-edge_not_in pool blocked [] = refl
  every-edge_not_in pool blocked (edge ∷ edges) = elim (Option-cases edge.pool_address) [
    | inl e ↦ rw e (ground arith)
    | inr (q, e) ↦ rw e (
        ground
          (arith, key.same_iff q pool, key.same_iff pool q, every-edge_not_in pool blocked edges))
  ]

  every-edge_not_in_nil :
      (edges : List (EdgeIdentity K))
      → every has_pool edges ≡ true
      → every (edge_not_in []) edges ≡ true
  every-edge_not_in_nil [] h = refl
  every-edge_not_in_nil (edge ∷ edges) h = elim (Option-cases edge.pool_address) [
    | inl e ↦ absurd (ground (arith, h, e))
    | inr (q, e) ↦ rw e (every-edge_not_in_nil edges (ground (arith, h, e)))
  ]

  clear_of_lem :
      (blocked : List K) (entry : CachedEntry K)
      → valid entry ≡ true
      → clear_of blocked entry ≡ not (any (λ pool. touches_pool pool entry) blocked)
  clear_of_lem [] entry v = every-edge_not_in_nil entry.path.edges v
  clear_of_lem (pool ∷ blocked) entry v =
      ground (arith, every-edge_not_in pool blocked entry.path.edges, clear_of_lem blocked entry v)

  keep_routes_all :
      (test : CachedEntry K → Bool) (cache : RouteCache K)
      → filter test cache.routes ≡ cache.routes
      → keep_routes test cache ≡ cache
  keep_routes_all test cache all =
      let none_gone : ltb (length cache.routes) (length cache.routes) ≡ false = ground arith in
      rw (keep_routes, all) (rw none_gone refl)

  every_empty :
      (routes : List (CachedEntry K))
      → every valid routes ≡ true
      → every (clear_of []) routes ≡ true
  every_empty [] h = refl
  every_empty (route ∷ routes) h =
      let here : clear_of [] route ≡ true =
        every-edge_not_in_nil route.path.edges (ground (arith, h)) in
      rw here (every_empty routes (ground (arith, h)))

  -- With nothing to block or nothing cached, the filter drops nothing.
  filter_idle :
      (cache : RouteCache K) (blocked : List K)
      → IsConsistent cache
      → (length blocked == 0 || length cache.routes == 0) ≡ true
      → filter (clear_of blocked) cache.routes ≡ cache.routes
  filter_idle cache [] h e =
      filter_all (clear_of []) cache.routes (every_empty cache.routes h.addressed)
  filter_idle cache (pool ∷ blocked) h e =
      filter-length (clear_of (pool ∷ blocked)) cache.routes (ground (arith, e))

  remove_by_pools_cases :
      (cache : RouteCache K) (pools : List (Option K))
      → IsConsistent cache
      → let cache' = keep_routes (clear_of (present pools)) cache in
        remove_by_pools cache pools ≡ (cache', length cache.routes - length cache'.routes)
  unfolding remove_by_pools
  remove_by_pools_cases cache pools h =
      elim (Bool-cases (length (present pools) == 0 || length cache.routes == 0)) [
        | inl e ↦
            let all = filter_idle cache (present pools) h e in
            let none_gone : length cache.routes - length cache.routes ≡ 0 = omega arith in
            rw (keep_routes_all (clear_of (present pools)) cache all) (rw (e, none_gone) refl)
        | inr e ↦ rw e refl
      ]

  -- On a consistent cache, removeByPools keeps, in their order, exactly the routes with no edge of a
  -- blocked pool, returns the number of the others, and getByPools then finds no route for the pools.
  pub remove_by_pools_lem :
      (cache : RouteCache K) (pools : List (Option K))
      → IsConsistent cache
      → let (cache', removed) = remove_by_pools cache pools in
        (cache'.routes ≡ filter (λ e. not (touches pools e)) cache.routes)
        × (removed + length cache'.routes ≡ length cache.routes)
        × (get_by_pools cache' pools ≡ [])
  unfolding rebuild_index
  remove_by_pools_lem cache pools h =
      let test = clear_of (present pools) in
      let kept : (keep_routes test cache).routes ≡ filter test cache.routes =
        ap (λ c. c.routes) (keep_routes_cases test cache h) in
      let same : filter test cache.routes ≡ filter (λ e. not (touches pools e)) cache.routes =
        filter_same valid test (λ e. not (touches pools e)) cache.routes
          (clear_of_lem (present pools)) h.addressed in
      let routes' = kept ∙ same in
      let indexed = (keep_routes-IsConsistent test cache h).indexed in
      let fewer : length (keep_routes test cache).routes ≤ length cache.routes =
        rw kept (length-filter test cache.routes) in
      let found : (e : CachedEntry K) → In e (get_by_pools (keep_routes test cache) pools) → ⊥ =
        λ e m.
          let (member, touched) = (get_by_pools_lem (keep_routes test cache) pools e indexed).0 m in
          let untouched =
            every-In (λ e. not (touches pools e)) (subst (In e) routes' member)
              (every-filter (λ e. not (touches pools e)) cache.routes) in
          absurd (ground (arith, touched, untouched)) in
      rw (remove_by_pools_cases cache pools h) (
        routes',
        omega (arith, fewer),
        no_member (get_by_pools (keep_routes test cache) pools) found,
      )
