-- ===== src/Routing/Graph.antt =====
-- src/routing/graph.ts: class RoutingGraph, its construction by addEdge and its queries. A pool address or a
-- token enters as what normalizeGraphKey gives, `none` for null; the field metadata stands for all that an edge carries
-- besides. addEdge keeps a copy of the edge with its keys replaced, where the source writes into the edge.
-- The key of a pool's route is the triple of its parts, which the joined string determines where no part has
-- a colon.
pub mod Edges
use mathlib.Core.Option.{get_or}
use ts_hsync_arb.Prelude.{
  ℕ, suc, Bool, true, false, Option, none, some, List, [], ◌∷◌, ◌++◌, map, ◌≡◌, ◌↔◌, refl, ap,
  arith, if◌then◌else◌,
}
use ts_hsync_arb.Prelude.Keys.{Key, get, set}
use ts_hsync_arb.Prelude.Arrays.{filter, has, add}

-- An edge as addEdge takes it.
pub record RawEdge (K A : Type 0) : Type 0 where
  pub pool_address : Option K
  pub token_in : Option K
  pub token_out : Option K
  pub metadata : A

pub record SwapEdge (K A : Type 0) : Type 0 where
  pub pool_address : K
  pub token_in : K
  pub token_out : K
  pub metadata : A

pub record RoutingGraph (K A : Type 0) : Type 0 where
  pub adjacency : List (K × List (SwapEdge K A))
  pub tokens : List K
  pub edge_count : ℕ
  pub edges_by_pool : List (K × List (SwapEdge K A))
  pub edge_by_pool_route : List ((K × K × K) × SwapEdge K A)

abbrev pub empty_graph : {K A : Type 0} → RoutingGraph K A
empty_graph = record {
  adjacency = [];
  tokens = [];
  edge_count = 0;
  edges_by_pool = [];
  edge_by_pool_route = [];
}

module _ {K : Type 0} where
  -- `!poolAddress || !tokenIn || !tokenOut`, which leaves the three keys.
  abbrev pub all_keys : Option K → Option K → Option K → Option (K × K × K)
  all_keys (some p) (some i) (some o) = some (p, i, o)
  all_keys (some p) (some i) none = none
  all_keys (some p) none o = none
  all_keys none i o = none

module _ {K : Type 0} ⦃key : Key K⦄ where
  abbrev pub same_pool_route : K × K × K → K × K × K → Bool
  same_pool_route (p, i, o) (p', i', o') =
      if key.same p p' then (if key.same i i' then key.same o o' else false) else false

  pub same_pool_route_iff : (a b : K × K × K) → (same_pool_route a b ≡ true) ↔ (a ≡ b)
  same_pool_route_iff (p, i, o) (p', i', o') =
      ground (arith, key.same_iff p p', key.same_iff i i', key.same_iff o o')

  instance abbrev pub pool_route_key : Key (K × K × K)
  pool_route_key = record { same = same_pool_route; same_iff = same_pool_route_iff }

  -- `map.get(k) || []`
  abbrev pub list_at : {V : Type 0} → K → List (K × List V) → List V
  list_at k m = get_or (get k m) []

  -- The array of `k`, made where it is missing, and a push to it.
  abbrev pub push_at : {V : Type 0} → K → V → List (K × List V) → List (K × List V)
  push_at k v m = set k (list_at k m ++ v ∷ []) m

  -- `[...new Set(keys)]`
  abbrev pub unique_keys : List K → List K → List K
  unique_keys seen [] = seen
  unique_keys seen (k ∷ ks) = unique_keys (add k seen) ks

module _ {K A : Type 0} where
  -- The edge with its keys replaced.
  abbrev pub edge_of : Option (K × K × K) → A → Option (SwapEdge K A)
  edge_of none metadata = none
  edge_of (some (p, i, o)) metadata =
      some (record { pool_address = p; token_in = i; token_out = o; metadata = metadata })

  abbrev pub normalized_edge : RawEdge K A → Option (SwapEdge K A)
  normalized_edge raw = edge_of (all_keys raw.pool_address raw.token_in raw.token_out) raw.metadata

module _ {K A : Type 0} ⦃key : Key K⦄ where
  abbrev pub insert_edge : SwapEdge K A → RoutingGraph K A → RoutingGraph K A
  insert_edge edge graph = record {
    adjacency = push_at edge.token_in edge graph.adjacency;
    tokens = add edge.token_out (add edge.token_in graph.tokens);
    edge_count = suc graph.edge_count;
    edges_by_pool = push_at edge.pool_address edge graph.edges_by_pool;
    edge_by_pool_route =
        set (edge.pool_address, edge.token_in, edge.token_out) edge graph.edge_by_pool_route;
  }

  abbrev pub insert_normalized : Option (SwapEdge K A) → RoutingGraph K A → RoutingGraph K A × Bool
  insert_normalized none graph = (graph, false)
  insert_normalized (some edge) graph = (insert_edge edge graph, true)

  -- addEdge: the graph after the call, and what it returns.
  abbrev pub add_edge : RawEdge K A → RoutingGraph K A → RoutingGraph K A × Bool
  add_edge raw graph = insert_normalized (normalized_edge raw) graph

  -- A sequence of calls of addEdge.
  abbrev pub add_edges : List (RawEdge K A) → RoutingGraph K A → RoutingGraph K A
  add_edges [] graph = graph
  add_edges (raw ∷ raws) graph = add_edges raws (add_edge raw graph).0

  abbrev pub get_edges : RoutingGraph K A → Option K → List (SwapEdge K A)
  get_edges graph none = []
  get_edges graph (some token) = list_at token graph.adjacency

  abbrev pub get_edges_between : RoutingGraph K A → Option K → Option K → List (SwapEdge K A)
  get_edges_between graph token_in none = []
  get_edges_between graph token_in (some token_out) =
      filter (λ e. key.same e.token_out token_out) (get_edges graph token_in)

  abbrev pub get_neighbors : RoutingGraph K A → Option K → List K
  get_neighbors graph token = unique_keys [] (map (λ e. e.token_out) (get_edges graph token))

  abbrev pub has_token : RoutingGraph K A → Option K → Bool
  has_token graph none = false
  has_token graph (some token) = has token graph.tokens

  abbrev pub get_pool_edge :
      RoutingGraph K A → Option K → Option K → Option K → Option (SwapEdge K A)
  get_pool_edge graph pool_address token_in token_out =
      elim (all_keys pool_address token_in token_out) [
        | none ↦ none
        | some route ↦ get route graph.edge_by_pool_route
      ]
