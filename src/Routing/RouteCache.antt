-- ===== src/Routing/RouteCache.antt =====
-- src/routing/route_cache.ts: the class RouteCache. An amount is `unreadable` where BigInt(...) throws. The
-- address of a pool enters in its normalised form, `none` where normalizeEvmAddress returns null; the pool
-- index is a `Map` in insertion order, and its sets of route numbers are lists without repetition.
pub mod Invariant
pub mod Latest
pub mod Removal
pub mod Index
pub mod Query
pub mod History
use ts_hsync_arb.Prelude.{
  ℕ, zero, suc, ◌-◌, Bool, true, false, not, ◌||◌, ◌==◌, Option, none, some, List, [], ◌∷◌, map,
  ltb, length, get_elem?, if◌then◌else◌,
}
use ts_hsync_arb.Prelude.Int.{ℤ, leb_ℤ}
use ts_hsync_arb.Prelude.Results.{Result, ok, err, ◌>>=◌}
use ts_hsync_arb.Prelude.Keys.{Key, nat_key, get, set}
use ts_hsync_arb.Prelude.Arrays.{every, any, filter, take, present, sort, has, add}
use ts_hsync_arb.Routing.RouteIdentity.{EdgeIdentity, RouteKey, route_identity_from_edges}
use ts_hsync_arb.Routing.RouteIdentity.Keys.{route_key}

pub data Amount : Type 0 where
  absent : Amount
  unreadable : Amount
  amount : ℤ → Amount

pub record CachedPath (K : Type 0) : Type 0 where
  pub start_token : Option K
  pub edges : List (EdgeIdentity K)

pub record CachedAssessment : Type 0 where
  pub net_profit_after_gas : Amount
  pub net_profit : Amount

-- An element of the argument of update.
pub record Candidate (K : Type 0) : Type 0 where
  pub path : CachedPath K
  pub result_profit : Amount
  pub assessment : Option CachedAssessment

pub record CachedEntry (K : Type 0) : Type 0 where
  pub path : CachedPath K
  pub result_profit : Amount
  pub assessment : Option CachedAssessment
  pub profit : ℤ

pub record RouteCache (K : Type 0) : Type 0 where
  pub max_size : ℕ
  pub routes : List (CachedEntry K)
  pub pool_index : List (K × List ℕ)

abbrev pub value_of : Amount → Option ℤ
value_of absent = none
value_of unreadable = none
value_of (amount profit) = some profit

-- `a ?? b` on the fields of an assessment.
abbrev pub or_amount : Amount → Amount → Amount
or_amount absent b = b
or_amount unreadable b = unreadable
or_amount (amount profit) b = amount profit

abbrev pub profit_from_result : Amount → Option ℤ
profit_from_result = value_of

abbrev pub profit_from_assessment : Option CachedAssessment → Option ℤ
profit_from_assessment none = none
profit_from_assessment (some a) = value_of (or_amount a.net_profit_after_gas a.net_profit)

-- `profitFromAssessment(assessment) ?? profitFromResult(result)`
abbrev pub ranking_profit : Option ℤ → Option ℤ → Option ℤ
ranking_profit none from_result = from_result
ranking_profit (some profit) from_result = some profit

abbrev pub add_all : List ℕ → List ℕ → List ℕ
add_all [] indexes = indexes
add_all (i ∷ hits) indexes = add_all hits (add i indexes)

module _ {K : Type 0} where
  -- The constructor.
  abbrev pub new_cache : ℕ → RouteCache K
  new_cache max_size = record { max_size = max_size; routes = []; pool_index = [] }

  abbrev pub has_pool : EdgeIdentity K → Bool
  has_pool edge = elim edge.pool_address [ none ↦ false | some pool ↦ true ]

  abbrev pub has_valid_pool_edges : CachedPath K → Bool
  has_valid_pool_edges path = every has_pool path.edges

  -- The body of the first loop of update: the entry that is pushed, if any.
  abbrev pub entry_of : Candidate K → Option (CachedEntry K)
  entry_of c =
      if has_valid_pool_edges c.path
      then (elim (ranking_profit (profit_from_assessment c.assessment)
          (profit_from_result c.result_profit)) [
            | none ↦ none
            | some profit ↦ some (record {
              path = c.path;
              result_profit = c.result_profit;
              assessment = c.assessment;
              profit = profit;
            })
          ])
      else none

  -- The comparison of update's sort: `a` may stand before `b`.
  abbrev pub ranks_before : CachedEntry K → CachedEntry K → Bool
  ranks_before a b = leb_ℤ b.profit a.profit

module _ {K : Type 0} ⦃key : Key K⦄ where
  -- One loop that sets entries by their route key in `latestByRouteKey`.
  abbrev pub set_latest :
      List (CachedEntry K)
      → List (RouteKey K × CachedEntry K)
      → Result (List (RouteKey K × CachedEntry K))
  set_latest [] latest = ok latest
  set_latest (entry ∷ entries) latest =
      route_identity_from_edges entry.path.start_token entry.path.edges >>= λ identity.
      set_latest entries (set identity entry latest)

  abbrev pub add_route : ℕ → K → List (K × List ℕ) → List (K × List ℕ)
  add_route i pool index = elim (get pool index) [
    | none ↦ set pool (i ∷ []) index
    | some routes ↦ set pool (add i routes) index
  ]

  -- _rebuildIndex: the inner loop, over the edges of route `i`, and the outer one.
  abbrev pub index_edges : ℕ → List (EdgeIdentity K) → List (K × List ℕ) → List (K × List ℕ)
  index_edges i [] index = index
  index_edges i (edge ∷ edges) index =
      index_edges i edges
        (elim edge.pool_address [ none ↦ index | some pool ↦ add_route i pool index ])

  abbrev pub index_routes : ℕ → List (CachedEntry K) → List (K × List ℕ) → List (K × List ℕ)
  index_routes i [] index = index
  index_routes i (route ∷ routes) index =
      index_routes (suc i) routes (index_edges i route.path.edges index)

  unfoldable pub rebuild_index : RouteCache K → RouteCache K
  rebuild_index cache = record cache { pool_index = index_routes 0 cache.routes [] }

  -- update, once there is something to add.
  abbrev pub merge : RouteCache K → List (CachedEntry K) → Result (RouteCache K)
  merge cache to_add = set_latest cache.routes [] >>= λ existing.
      set_latest to_add existing >>= λ latest. ok (
        rebuild_index (record cache {
          routes = take cache.max_size (sort ranks_before (map (λ e. e.1) latest));
        }))

  unfoldable pub update : RouteCache K → List (Candidate K) → Result (RouteCache K)
  update cache profitable = elim (present (map entry_of profitable)) [
    | [] ↦ ok cache
    | ◌∷◌ entry entries ↦ merge cache (entry ∷ entries)
  ]

  -- The loop of getByPools; a changed pool is `none` where its address is not valid.
  abbrev pub collect : List (K × List ℕ) → List (Option K) → List ℕ → List ℕ
  collect index [] indexes = indexes
  collect index (none ∷ changed) indexes = collect index changed indexes
  collect index (some pool ∷ changed) indexes =
      collect index changed
        (elim (get pool index) [ none ↦ indexes | some hits ↦ add_all hits indexes ])

  unfoldable pub get_by_pools : RouteCache K → List (Option K) → List (CachedEntry K)
  get_by_pools cache changed =
      present (map (λ i. get_elem? cache.routes i) (collect cache.pool_index changed []))

  -- `_routes = _routes.filter(test)`, and the index again if a route went.
  abbrev pub keep_routes : (CachedEntry K → Bool) → RouteCache K → RouteCache K
  keep_routes test cache =
      let kept = record cache { routes = filter test cache.routes } in
      if ltb (length kept.routes) (length cache.routes) then rebuild_index kept else kept

  abbrev pub edge_in : List K → EdgeIdentity K → Bool
  edge_in pools edge = elim edge.pool_address [ none ↦ false | some pool ↦ has pool pools ]

  abbrev pub edge_not_in : List K → EdgeIdentity K → Bool
  edge_not_in pools edge = elim edge.pool_address [
    | none ↦ false
    | some pool ↦ not (has pool pools)
  ]

  unfoldable pub prune : RouteCache K → List (Option K) → RouteCache K
  prune cache state_pools =
      keep_routes (λ entry. every (edge_in (present state_pools)) entry.path.edges) cache

  -- The test of removeByPools' filter.
  abbrev pub clear_of : List K → CachedEntry K → Bool
  clear_of blocked entry = every (edge_not_in blocked) entry.path.edges

  -- The cache afterwards and the number of routes removed.
  unfoldable pub remove_by_pools : RouteCache K → List (Option K) → RouteCache K × ℕ
  remove_by_pools cache pool_addresses =
      let blocked = present pool_addresses in
      if length blocked == 0 || length cache.routes == 0
      then (cache, 0)
      else let cache' = keep_routes (clear_of blocked) cache in
        (cache', length cache.routes - length cache'.routes)

  unfoldable pub clear : RouteCache K → RouteCache K
  clear cache = record cache { routes = []; pool_index = [] }
