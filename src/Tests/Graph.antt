-- ===== src/Tests/Graph.antt =====
-- src/routing/graph.ts on a graph of three pools.
use ts_hsync_arb.Prelude.{ℕ, none, some, List, [], ◌∷◌}
use ts_hsync_arb.Prelude.Keys.{nat_key}
use ts_hsync_arb.Routing.Graph.{RawEdge, empty_graph, add_edges}
use ts_hsync_arb.Routing.Graph.Edges.{Reflects, accepted, graph_of_edges-Reflects}

-- Two directions of pool 10, one of pool 11 twice, and an edge without an output token.
abbrev three_pools : List (RawEdge ℕ ℕ)
three_pools =
    record { pool_address = some 10; token_in = some 1; token_out = some 2; metadata = 5 }
    ∷ record { pool_address = some 10; token_in = some 2; token_out = some 1; metadata = 5 }
    ∷ record { pool_address = some 11; token_in = some 1; token_out = some 3; metadata = 6 }
    ∷ record { pool_address = some 12; token_in = some 1; token_out = none; metadata = 7 }
    ∷ record { pool_address = some 11; token_in = some 1; token_out = some 3; metadata = 8 }
    ∷ []

graph_of_edges-Reflects_example :
    Reflects (add_edges three_pools empty_graph) (accepted three_pools)
graph_of_edges-Reflects_example = graph_of_edges-Reflects three_pools
