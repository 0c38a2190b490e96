-- ===== src/Routing/RouteCache/Invariant.antt =====
-- What the operations of RouteCache (src/routing/route_cache.ts) keep.
use ts_hsync_arb.Prelude.{
  ℕ, ◌≡◌, ◌≤◌, refl, subst, arith, Bool, true, none, some, List, [], ◌∷◌, map, ltb, length,
  Bool-cases, Option-cases, inl, inr, ◌⊎◌,
}
use ts_hsync_arb.Prelude.Int.{leb_of_le, le_of_leb, lt_of_leb}
use ts_hsync_arb.Prelude.Results.{Result, ok, ◌>>=◌, Result-cases, ok-injective, not-threw}
use ts_hsync_arb.Prelude.Keys.{Key}
use ts_hsync_arb.Prelude.Arrays.{every, filter, take, present, sort}
use ts_hsync_arb.Prelude.Arrays.Member.{
  filter-length, length-filter, length-take, every-filter_other, every-take,
}
use ts_hsync_arb.Prelude.Arrays.Sorting.{
  InOrder, Total, every-sort, sort-InOrder, sort-Apart, filter-InOrder, take-InOrder,
}
use ts_hsync_arb.Routing.RouteIdentity.{RouteKey}
use ts_hsync_arb.Routing.RouteCache.{
  Candidate, CachedEntry, RouteCache, ranks_before, index_routes, rebuild_index, set_latest, merge,
  entry_of, has_valid_pool_edges, ranking_profit, profit_from_assessment, profit_from_result,
  keep_routes, new_cache,
}
use ts_hsync_arb.Routing.RouteCache.Latest.{
  differs, valid, IsLatest, set_latest-IsLatest, differs-flip, values-Apart, values-valid,
}

module _ {K : Type 0} ⦃key : Key K⦄ where
  -- The index is that of the routes; there are at most `max_size` of them, by falling profit, for
  -- different route keys, with valid pool addresses only.
  pub record IsConsistent (cache : RouteCache K) : Type 0 where
    pub indexed : cache.pool_index ≡ index_routes 0 cache.routes []
    pub bounded : length cache.routes ≤ cache.max_size
    pub ranked : InOrder ranks_before cache.routes
    pub apart : InOrder differs cache.routes
    pub addressed : every valid cache.routes ≡ true

  pub new_cache-IsConsistent : (max_size : ℕ) → IsConsistent (new_cache max_size)
  new_cache-IsConsistent max_size = record {
    indexed = refl;
    bounded = omega arith;
    ranked = tt;
    apart = tt;
    addressed = refl;
  }

  ranks_before-Total : Total {A = CachedEntry K} ranks_before
  ranks_before-Total = record {
    other_way = λ x y h. leb_of_le x.profit y.profit (omega (arith, lt_of_leb y.profit x.profit h));
    through = λ x y z h i.
        leb_of_le z.profit x.profit
          (omega (arith, le_of_leb y.profit x.profit h, le_of_leb z.profit y.profit i));
  }

  pub keep_routes_cases :
      (test : CachedEntry K → Bool) (cache : RouteCache K)
      → IsConsistent cache
      → keep_routes test cache ≡ rebuild_index (record cache { routes = filter test cache.routes })
  unfolding rebuild_index
  keep_routes_cases test cache h =
      elim (Bool-cases (ltb (length (filter test cache.routes)) (length cache.routes))) [
        | inl e ↦ rw e refl
        | inr e ↦
            let all : filter test cache.routes ≡ cache.routes =
              filter-length test cache.routes (ground (arith, e)) in
            rw e (rw (h.indexed, all) refl)
      ]

  pub keep_routes-IsConsistent :
      (test : CachedEntry K → Bool) (cache : RouteCache K)
      → IsConsistent cache
      → IsConsistent (keep_routes test cache)
  unfolding rebuild_index
  keep_routes-IsConsistent test cache h = rw (keep_routes_cases test cache h) (record {
    indexed = refl;
    bounded = omega (arith, length-filter test cache.routes, h.bounded);
    ranked = filter-InOrder ranks_before test cache.routes h.ranked;
    apart = filter-InOrder differs test cache.routes h.apart;
    addressed = every-filter_other valid test cache.routes h.addressed;
  })

  abbrev ranked_cache : RouteCache K → List (RouteKey K × CachedEntry K) → RouteCache K
  ranked_cache cache latest =
      rebuild_index
        (record cache { routes = take cache.max_size (sort ranks_before (map (λ e. e.1) latest)) })

  merged-IsConsistent :
      (cache : RouteCache K) (latest : List (RouteKey K × CachedEntry K))
      → IsLatest latest
      → IsConsistent (ranked_cache cache latest)
  unfolding rebuild_index
  merged-IsConsistent cache latest h =
      let values = map (λ e. e.1) latest in
      let ranked = sort ranks_before values in
      record {
        indexed = refl;
        bounded = length-take cache.max_size ranked;
        ranked =
            take-InOrder ranks_before cache.max_size ranked
              (sort-InOrder ranks_before ranks_before-Total values);
        apart = take-InOrder differs cache.max_size ranked (
            sort-Apart differs ranks_before differs-flip values
              (values-Apart latest h.keyed h.fresh));
        addressed =
            every-take valid cache.max_size ranked
              (every-sort valid ranks_before values (values-valid latest h.addressed));
      }

  -- merge, from its first and from its second loop on.
  abbrev rank_from :
      RouteCache K → Result (List (RouteKey K × CachedEntry K)) → Result (RouteCache K)
  rank_from cache r = r >>= λ latest. ok (ranked_cache cache latest)

  abbrev merge_from :
      RouteCache K
      → List (CachedEntry K)
      → Result (List (RouteKey K × CachedEntry K))
      → Result (RouteCache K)
  merge_from cache to_add r = r >>= λ existing. rank_from cache (set_latest to_add existing)

  nil-IsLatest : IsLatest {K = K} []
  nil-IsLatest = record { keyed = refl; fresh = tt; addressed = refl }

  pub merge-IsConsistent :
      (cache cache' : RouteCache K) (to_add : List (CachedEntry K))
      → IsConsistent cache
      → every valid to_add ≡ true
      → merge cache to_add ≡ ok cache'
      → IsConsistent cache'
  merge-IsConsistent cache cache' to_add h vs e = elim (Result-cases (set_latest cache.routes [])) [
    | inl (thrown, fails) ↦
        absurd (not-threw (subst (λ r. merge_from cache to_add r ≡ ok cache') fails e))
    | inr (existing, is) ↦
        let e' = subst (λ r. merge_from cache to_add r ≡ ok cache') is e in
        let old = set_latest-IsLatest cache.routes [] existing h.addressed nil-IsLatest is in
        elim (Result-cases (set_latest to_add existing)) [
          | inl (thrown, fails) ↦
              absurd (not-threw (subst (λ r. rank_from cache r ≡ ok cache') fails e'))
          | inr (latest, is') ↦
              let same : ranked_cache cache latest ≡ cache' =
                ok-injective (subst (λ r. rank_from cache r ≡ ok cache') is' e') in
              subst IsConsistent same (
                merged-IsConsistent cache latest
                  (set_latest-IsLatest to_add existing latest vs old is'))
        ]
  ]

  entry_of-valid :
      (c : Candidate K)
      → (entry_of c ≡ none) ⊎ ((e : CachedEntry K) × (entry_of c ≡ some e) × (valid e ≡ true))
  entry_of-valid c = elim (Bool-cases (has_valid_pool_edges c.path)) [
    | inr e ↦ inl (rw e refl)
    | inl e ↦
        elim (Option-cases (
          ranking_profit (profit_from_assessment c.assessment)
            (profit_from_result c.result_profit))) [
              | inl absent ↦ inl (rw (e, absent) refl)
              | inr (profit, is) ↦
                  let entry : CachedEntry K = record {
                    path = c.path;
                    result_profit = c.result_profit;
                    assessment = c.assessment;
                    profit = profit;
                  } in
                  inr (entry, rw (e, is) refl, e)
            ]
  ]

  pub present-entry_of-valid :
      (candidates : List (Candidate K)) → every valid (present (map entry_of candidates)) ≡ true
  present-entry_of-valid [] = refl
  present-entry_of-valid (c ∷ candidates) = elim (entry_of-valid c) [
    | inl absent ↦ rw (entry_of, absent) (present-entry_of-valid candidates)
    | inr (e, is, v) ↦ rw (entry_of, is) (rw v (present-entry_of-valid candidates))
  ]
