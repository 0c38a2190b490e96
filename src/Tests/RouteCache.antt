-- ===== src/Tests/RouteCache.antt =====
-- src/routing/route_identity.ts and src/routing/route_cache.ts at concrete routes.
use ts_hsync_arb.Prelude.{
  ℕ, ◌+◌, ◌≡◌, ◌↔◌, refl, true, not, Option, none, some, List, [], ◌∷◌, length,
}
use ts_hsync_arb.Prelude.Int.{pos}
use ts_hsync_arb.Prelude.Keys.{nat_key}
use ts_hsync_arb.Prelude.Arrays.{filter}
use ts_hsync_arb.Prelude.Arrays.Member.{In}
use ts_hsync_arb.Routing.RouteIdentity.{
  EdgeIdentity, route_identity_from_edges, route_identity_from_serialized_path,
}
use ts_hsync_arb.Routing.RouteIdentity.Agreement.{serialized-route_identity}
use ts_hsync_arb.Routing.RouteCache.{
  amount, Candidate, CachedEntry, RouteCache, new_cache, get_by_pools, remove_by_pools, update,
  rebuild_index, prune,
}
use ts_hsync_arb.Routing.RouteCache.Index.{touches}
use ts_hsync_arb.Routing.RouteCache.Query.{get_by_pools_lem}
use ts_hsync_arb.Routing.RouteCache.Invariant.{IsConsistent}
use ts_hsync_arb.Routing.RouteCache.Removal.{remove_by_pools_lem}
use ts_hsync_arb.Routing.RouteCache.History.{
  CacheCall, updates, prunes, run, run-new_cache-IsConsistent,
}

abbrev hop : ℕ → ℕ → ℕ → EdgeIdentity ℕ
hop pool token_in token_out = record {
  pool_address = some pool;
  token_in = some token_in;
  token_out = some token_out;
}

serialized-route_identity_example :
    route_identity_from_serialized_path
      (some 1)
      (some 10 ∷ some 11 ∷ [])
      (some 1 ∷ some 2 ∷ [])
      (some 2 ∷ some 1 ∷ [])
    ≡ route_identity_from_edges (some 1) (hop 10 1 2 ∷ hop 11 2 1 ∷ [])
serialized-route_identity_example =
    serialized-route_identity (some 1) (hop 10 1 2) (hop 11 2 1 ∷ [])

abbrev candidate : List (EdgeIdentity ℕ) → ℕ → Candidate ℕ
candidate edges profit = record {
  path = record { start_token = some 1; edges = edges };
  result_profit = amount (pos profit);
  assessment = none;
}

-- Two routes, the first of them seen twice, with room for two.
abbrev history : List (CacheCall ℕ)
history =
    updates
      (candidate (hop 10 1 2 ∷ hop 11 2 1 ∷ []) 5 ∷ candidate (hop 12 1 2 ∷ hop 11 2 1 ∷ []) 7 ∷ [])
    ∷ updates (candidate (hop 10 1 2 ∷ hop 11 2 1 ∷ []) 9 ∷ [])
    ∷ prunes (some 10 ∷ some 11 ∷ some 12 ∷ none ∷ [])
    ∷ []

run-new_cache-IsConsistent_example : IsConsistent (run (new_cache 2) history)
run-new_cache-IsConsistent_example = run-new_cache-IsConsistent 2 history

abbrev entry : ℕ → ℕ → CachedEntry ℕ
entry pool profit = record {
  path = record { start_token = some 1; edges = hop pool 1 2 ∷ hop 11 2 1 ∷ [] };
  result_profit = amount (pos profit);
  assessment = none;
  profit = pos profit;
}

history_cache : run (new_cache 2) history ≡ record {
  max_size = 2;
  routes = entry 10 9 ∷ entry 12 7 ∷ [];
  pool_index = (10, 0 ∷ []) ∷ (11, 0 ∷ 1 ∷ []) ∷ (12, 1 ∷ []) ∷ [];
}
unfolding update rebuild_index prune route_identity_from_edges
history_cache = refl

abbrev small : RouteCache ℕ
small = record {
  max_size = 2;
  routes = entry 10 9 ∷ entry 12 7 ∷ [];
  pool_index = (10, 0 ∷ []) ∷ (11, 0 ∷ 1 ∷ []) ∷ (12, 1 ∷ []) ∷ [];
}

get_by_pools_lem_example :
    In (entry 12 7) (get_by_pools small (none ∷ some 12 ∷ []))
    ↔ (In (entry 12 7) small.routes × (touches (none ∷ some 12 ∷ []) (entry 12 7) ≡ true))
get_by_pools_lem_example = get_by_pools_lem small (none ∷ some 12 ∷ []) (entry 12 7) refl

abbrev blocked : List (Option ℕ)
blocked = some 12 ∷ []

remove_by_pools_lem_example :
    let cache = run (new_cache 2) history in
    ((remove_by_pools cache blocked).0.routes ≡ filter (λ e. not (touches blocked e)) cache.routes)
    × ((remove_by_pools cache blocked).1 + length ((remove_by_pools cache blocked).0.routes)
        ≡ length cache.routes)
    × (get_by_pools ((remove_by_pools cache blocked).0) blocked ≡ [])
remove_by_pools_lem_example =
    remove_by_pools_lem (run (new_cache 2) history) blocked (run-new_cache-IsConsistent 2 history)
