-- ===== src/Routing/RouteCache/History.antt =====
-- The life of a RouteCache (src/routing/route_cache.ts): any sequence of calls after the constructor. A call
-- that throws leaves the cache as it was.
use ts_hsync_arb.Prelude.{
  ℕ, ◌≡◌, Option, List, [], ◌∷◌, map, inl, inr, arith, refl, subst, true, ◌==◌, ◌||◌, length,
  Bool-cases,
}
use ts_hsync_arb.Prelude.Results.{Result, ok, err, Result-cases}
use ts_hsync_arb.Prelude.Keys.{Key}
use ts_hsync_arb.Prelude.Arrays.{present, every}
use ts_hsync_arb.Routing.RouteCache.{
  Candidate, CachedEntry, RouteCache, new_cache, update, prune, remove_by_pools, clear, entry_of,
  merge, clear_of,
}
use ts_hsync_arb.Routing.RouteCache.Invariant.{
  IsConsistent, new_cache-IsConsistent, keep_routes-IsConsistent, merge-IsConsistent,
  present-entry_of-valid,
}
use ts_hsync_arb.Routing.RouteCache.Latest.{valid}

pub data CacheCall (K : Type 0) : Type 0 where
  updates : List (Candidate K) → CacheCall K
  prunes : List (Option K) → CacheCall K
  removes : List (Option K) → CacheCall K
  clears : CacheCall K

module _ {K : Type 0} ⦃key : Key K⦄ where
  abbrev pub after : RouteCache K → Result (RouteCache K) → RouteCache K
  after cache (ok cache') = cache'
  after cache (err thrown) = cache

  abbrev pub apply_call : RouteCache K → CacheCall K → RouteCache K
  apply_call cache (updates profitable) = after cache (update cache profitable)
  apply_call cache (prunes state_pools) = prune cache state_pools
  apply_call cache (removes pools) = (remove_by_pools cache pools).0
  apply_call cache clears = clear cache

  abbrev pub run : RouteCache K → List (CacheCall K) → RouteCache K
  run cache [] = cache
  run cache (call ∷ calls) = run (apply_call cache call) calls

  update-IsConsistent :
      (cache : RouteCache K) (profitable : List (Candidate K)) (to_add : List (CachedEntry K))
      → present (map entry_of profitable) ≡ to_add
      → IsConsistent cache
      → IsConsistent (after cache (update cache profitable))
  unfolding update
  update-IsConsistent cache profitable [] e h =
      let same : update cache profitable ≡ ok cache = rw (update, e) refl in rw same h
  update-IsConsistent cache profitable (entry ∷ entries) e h =
      let same : update cache profitable ≡ merge cache (entry ∷ entries) = rw (update, e) refl in
      elim (Result-cases (merge cache (entry ∷ entries))) [
        | inl (thrown, fails) ↦ rw same (rw fails h)
        | inr (cache', is) ↦
            let all_valid =
              subst (λ l. every valid l ≡ true) e (present-entry_of-valid profitable) in
            rw same (rw is (merge-IsConsistent cache cache' (entry ∷ entries) h all_valid is))
      ]

  remove_by_pools-IsConsistent :
      (cache : RouteCache K) (pools : List (Option K))
      → IsConsistent cache
      → IsConsistent ((remove_by_pools cache pools).0)
  unfolding remove_by_pools
  remove_by_pools-IsConsistent cache pools h =
      elim (Bool-cases (length (present pools) == 0 || length cache.routes == 0)) [
        | inl e ↦ rw e h
        | inr e ↦ rw e (keep_routes-IsConsistent (clear_of (present pools)) cache h)
      ]

  apply_call-IsConsistent :
      (cache : RouteCache K) (call : CacheCall K)
      → IsConsistent cache
      → IsConsistent (apply_call cache call)
  unfolding prune clear
  apply_call-IsConsistent cache (updates profitable) h =
      update-IsConsistent cache profitable _ refl h
  apply_call-IsConsistent cache (prunes state_pools) h = keep_routes-IsConsistent _ cache h
  apply_call-IsConsistent cache (removes pools) h = remove_by_pools-IsConsistent cache pools h
  apply_call-IsConsistent cache clears h = record {
    indexed = refl;
    bounded = omega arith;
    ranked = tt;
    apart = tt;
    addressed = refl;
  }

  run-IsConsistent :
      (cache : RouteCache K) (calls : List (CacheCall K))
      → IsConsistent cache
      → IsConsistent (run cache calls)
  run-IsConsistent cache [] h = h
  run-IsConsistent cache (call ∷ calls) h =
      run-IsConsistent (apply_call cache call) calls (apply_call-IsConsistent cache call h)

  -- After any calls of update, prune, removeByPools and clear on a new cache, its pool index is that of its
  -- routes; there are at most `max_size` routes, in the order of falling profit, no two with the same
  -- route key, and all with valid pool addresses.
  pub run-new_cache-IsConsistent :
      (max_size : ℕ) (calls : List (CacheCall K)) → IsConsistent (run (new_cache max_size) calls)
  run-new_cache-IsConsistent max_size calls =
      run-IsConsistent (new_cache max_size) calls (new_cache-IsConsistent max_size)
