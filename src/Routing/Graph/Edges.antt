-- ===== src/Routing/Graph/Edges.antt =====
-- The indexes of a routing graph against the list of the edges added to it.
use mathlib.Core.Option.{get_or}
use ts_hsync_arb.Prelude.{
  suc, ◌≡◌, refl, sym, ap, ◌∙◌, subst, arith, Bool, ◌||◌, Option, none, some, List, [], ◌∷◌, ◌++◌,
  length, map, Bool-cases, inl, inr, if◌then◌else◌,
}
use ts_hsync_arb.Prelude.Keys.{Key, get-set}
use ts_hsync_arb.Prelude.Arrays.{filter, any, add, present}
use ts_hsync_arb.Prelude.Arrays.Member.{has-add}
use ts_hsync_arb.Routing.Graph.{
  RawEdge, SwapEdge, RoutingGraph, empty_graph, pool_route_key, list_at, push_at, normalized_edge,
  insert_edge, insert_normalized, add_edges, get_edges, has_token, get_pool_edge,
}

-- The edges that addEdge does not refuse, with their keys replaced.
abbrev pub accepted : {K A : Type 0} → List (RawEdge K A) → List (SwapEdge K A)
accepted raws = present (map normalized_edge raws)

module _ {A : Type 0} where
  -- The last element that passes the test.
  abbrev pub find_last : (A → Bool) → List A → Option A
  find_last test [] = none
  find_last test (x ∷ xs) = elim (find_last test xs) [
    | some y ↦ some y
    | none ↦ if test x then some x else none
  ]

  filter-snoc :
      (test : A → Bool) (xs : List A) (x : A)
      → filter test (xs ++ x ∷ []) ≡ (if test x then filter test xs ++ x ∷ [] else filter test xs)
  filter-snoc test [] x = ground arith
  filter-snoc test (y ∷ ys) x = ground (arith, filter-snoc test ys x)

  any-snoc :
      (test : A → Bool) (xs : List A) (x : A) → any test (xs ++ x ∷ []) ≡ (any test xs || test x)
  any-snoc test [] x = ground arith
  any-snoc test (y ∷ ys) x = ground (arith, any-snoc test ys x)

  find_last-snoc :
      (test : A → Bool) (xs : List A) (x : A)
      → find_last test (xs ++ x ∷ []) ≡ (if test x then some x else find_last test xs)
  find_last-snoc test [] x = refl
  find_last-snoc test (y ∷ ys) x = elim (Bool-cases (test x)) [
    | inl e ↦ rw e (rw (find_last-snoc test ys x) (rw e refl))
    | inr e ↦ rw e (rw (find_last-snoc test ys x) (rw e refl))
  ]

  length-snoc : (xs : List A) (x : A) → length (xs ++ x ∷ []) ≡ suc (length xs)
  length-snoc [] x = refl
  length-snoc (y ∷ ys) x = omega (arith, length-snoc ys x)

  append_assoc : (xs : List A) (x : A) (ys : List A) → (xs ++ x ∷ []) ++ ys ≡ xs ++ x ∷ ys
  append_assoc [] x ys = refl
  append_assoc (z ∷ zs) x ys = rw (append_assoc zs x ys) refl

  append_nil : (xs : List A) → xs ++ [] ≡ xs
  append_nil [] = refl
  append_nil (x ∷ xs) = rw (append_nil xs) refl

module _ {K : Type 0} ⦃key : Key K⦄ where
  list_at-push_at :
      {V : Type 0} (k j : K) (v : V) (m : List (K × List V))
      → list_at j (push_at k v m) ≡ (if key.same k j then list_at j m ++ v ∷ [] else list_at j m)
  list_at-push_at k j v m =
      ap (λ o. get_or o []) (get-set k j (list_at k m ++ v ∷ []) m)
      ∙ elim (Bool-cases (key.same k j)) [
        | inl e ↦
            let same : k ≡ j = (key.same_iff k j).0 e in rw e (ap (λ i. list_at i m ++ v ∷ []) same)
        | inr e ↦ rw e refl
      ]

module _ {K A : Type 0} ⦃key : Key K⦄ where
  abbrev pub on_route : K × K × K → SwapEdge K A → Bool
  on_route route edge = pool_route_key.same (edge.pool_address, edge.token_in, edge.token_out) route

  -- The graph holds the edges of the list: each index gives, in their order, the edges of its key; a route has
  -- its last edge; the tokens are those of the edges.
  pub record Reflects (graph : RoutingGraph K A) (edges : List (SwapEdge K A)) : Type 0 where
    pub outgoing :
        (token : K) → get_edges graph (some token) ≡ filter (λ e. key.same e.token_in token) edges
    pub by_pool :
        (pool : K)
        → list_at pool graph.edges_by_pool ≡ filter (λ e. key.same e.pool_address pool) edges
    pub by_route :
        (pool token_in token_out : K)
        → get_pool_edge graph (some pool) (some token_in) (some token_out)
          ≡ find_last (on_route (pool, token_in, token_out)) edges
    pub known :
        (token : K)
        → has_token graph (some token)
          ≡ any (λ e. key.same e.token_in token || key.same e.token_out token) edges
    pub counted : graph.edge_count ≡ length edges

  insert_edge-Reflects :
      (edge : SwapEdge K A) (graph : RoutingGraph K A) (edges : List (SwapEdge K A))
      → Reflects graph edges
      → Reflects (insert_edge edge graph) (edges ++ edge ∷ [])
  insert_edge-Reflects edge graph edges r = record {
    outgoing = λ token.
        list_at-push_at edge.token_in token edge graph.adjacency
        ∙ rw (r.outgoing token) (sym (filter-snoc (λ e. key.same e.token_in token) edges edge));
    by_pool = λ pool.
        list_at-push_at edge.pool_address pool edge graph.edges_by_pool
        ∙ rw (r.by_pool pool) (sym (filter-snoc (λ e. key.same e.pool_address pool) edges edge));
    by_route = λ pool token_in token_out.
        get-set (edge.pool_address, edge.token_in, edge.token_out) (pool, token_in, token_out) edge
          graph.edge_by_pool_route
        ∙ rw (r.by_route pool token_in token_out)
            (sym (find_last-snoc (on_route (pool, token_in, token_out)) edges edge));
    known = λ token. ground (
      arith,
      has-add token edge.token_out (add edge.token_in graph.tokens),
      has-add token edge.token_in graph.tokens,
      r.known token,
      any-snoc (λ e. key.same e.token_in token || key.same e.token_out token) edges edge,
    );
    counted = omega (arith, r.counted, length-snoc edges edge);
  }

  add_edges-Reflects :
      (raws : List (RawEdge K A)) (graph : RoutingGraph K A) (edges : List (SwapEdge K A))
      → Reflects graph edges
      → Reflects (add_edges raws graph) (edges ++ accepted raws)
  add_edges-Reflects [] graph edges r = rw (append_nil edges) r
  add_edges-Reflects (raw ∷ raws) graph edges r =
      elim (normalized_edge raw)
        as (λ o.
          Reflects (add_edges raws (insert_normalized o graph).0)
            (edges ++ present (o ∷ map normalized_edge raws))) [
              | none ↦ add_edges-Reflects raws graph edges r
              | some edge ↦
                  subst (λ es. Reflects (add_edges raws (insert_edge edge graph)) es)
                    (append_assoc edges edge (accepted raws))
                    (add_edges-Reflects raws (insert_edge edge graph) (edges ++ edge ∷ [])
                      (insert_edge-Reflects edge graph edges r))
            ]

  -- After any calls of addEdge on a new graph, getEdges, getPoolEdge and hasToken answer from the list of the
  -- edges that were not refused: the edges out of a token and those of a pool in the order they were added, the
  -- last edge added for a route, and the tokens of the edges; the edge count is the length of the list.
  pub graph_of_edges-Reflects :
      (raws : List (RawEdge K A)) → Reflects (add_edges raws empty_graph) (accepted raws)
  graph_of_edges-Reflects raws = add_edges-Reflects raws empty_graph [] (record {
    outgoing = λ token. refl;
    by_pool = λ pool. refl;
    by_route = λ pool token_in token_out. refl;
    known = λ token. refl;
    counted = refl;
  })
