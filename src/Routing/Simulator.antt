-- ===== src/Routing/Simulator.antt =====
-- src/routing/simulator.ts: simulateHop and simulateRoute. A token enters with its lower-case form where
-- isFastEvmAddress holds and with its normalised form; a pool state enters as what the edge or the cache
-- gives, of the kind that the edge's protocol says. The pricing of Balancer and WOOFi pools, and a function
-- attached to an edge, are functions of the amount. The fee of an edge is `none` where it is missing, and
-- else `some` of its BigInt conversion.
pub mod Walk
pub mod Closing
pub mod Optimize
pub mod Batch
use ts_hsync_arb.Prelude.{
  ℕ, ◌+◌, Bool, true, false, not, ◌&&◌, ◌||◌, Option, none, some, List, [], ◌∷◌, ◌++◌, length, ◌==◌,
  if◌then◌else◌,
}
use ts_hsync_arb.Prelude.Int.{ℤ, pos, ◌-ℤ◌, ltb_ℤ, leb_ℤ, eqb_ℤ}
use ts_hsync_arb.Prelude.Number.{Number, whole, other}
use ts_hsync_arb.Prelude.Results.{Result, ok, err, ◌>>=◌}
use ts_hsync_arb.Prelude.Keys.{Key}
use ts_hsync_arb.Math.UniswapV2.{Swap, V2Pool, simulate_v2_swap}
use ts_hsync_arb.Math.UniswapV3.{V3Pool, simulate_v3_swap}
use ts_hsync_arb.Math.Curve.{CurvePool}
use ts_hsync_arb.Math.CurveIn.{simulate_curve_swap}
use ts_hsync_arb.Math.Dodo.{DodoPool, simulate_dodo_swap}
use ts_hsync_arb.Routing.PathHops.{ResultShape, get_path_hop_count}
use ts_hsync_arb.Routing.SwapIndices.{SwapIndexes}

pub data HopState : Type 0 where
  missing_state : HopState
  unsupported : HopState
  attached : (ℤ → Result Swap) → HopState
  v2_pool : V2Pool → HopState
  v3_pool : V3Pool → HopState
  curve_pool : CurvePool → Option SwapIndexes → HopState
  weighted_pool : Option (ℤ → Result Swap) → HopState
  dodo_pool : DodoPool → HopState
  woofi_pool : Option (ℤ → Result Swap) → HopState

pub record RouteToken (K : Type 0) : Type 0 where
  pub fast : Option K
  pub normalized : Option K

pub record HopEdge (K : Type 0) : Type 0 where
  pub token_in : RouteToken K
  pub token_out : RouteToken K
  pub pool_address : K
  pub protocol : K
  pub state : HopState
  pub zero_for_one : Bool
  pub fee : Option (Option ℤ)

pub record RoutePath (K : Type 0) : Type 0 where
  pub start_token : RouteToken K
  pub edges : Option (List (HopEdge K))
  pub hop_count : Number

pub record RouteSimResult (K : Type 0) : Type 0 where
  pub amount_in : ℤ
  pub amount_out : ℤ
  pub profit : ℤ
  pub profitable : Bool
  pub hop_amounts : List ℤ
  pub total_gas : ℕ
  pub pool_path : List K
  pub token_path : List (RouteToken K)
  pub protocols : List K
  pub hop_count : Number

-- The variables of the loop of simulateRoute.
pub record RouteState (K : Type 0) : Type 0 where
  pub current : ℤ
  pub expected_token_in : RouteToken K
  pub hop_amounts : List ℤ
  pub total_gas : ℕ
  pub pool_path : List K
  pub token_path : List (RouteToken K)
  pub protocols : List K

abbrev pub nothing : Swap
nothing = record { amount_out = pos 0; gas_estimate = 0 }

-- The pricing of a pool whose token indexes were resolved, or nothing.
abbrev pub with_indexes : Option (ℤ → Result Swap) → ℤ → Result Swap
with_indexes none amount_in = ok nothing
with_indexes (some price) amount_in = price amount_in

-- The fee of a V2 state, with the defaults of simulateHop.
abbrev pub or_default : Option ℤ → ℕ → ℤ
or_default none default = pos default
or_default (some value) default = value

module _ {K : Type 0} where
  -- simulateHop after its test of the amount.
  abbrev pub dispatch : HopEdge K → HopState → ℤ → Result Swap
  dispatch edge missing_state amount_in = ok nothing
  dispatch edge unsupported amount_in = ok nothing
  dispatch edge (attached swap) amount_in = swap amount_in
  dispatch edge (v2_pool pool) amount_in =
      simulate_v2_swap pool amount_in edge.zero_for_one (some (or_default pool.fee 997))
        (some (or_default pool.fee_den 1000))
  dispatch edge (v3_pool pool) amount_in =
      simulate_v3_swap pool amount_in edge.zero_for_one edge.fee >>= λ q.
      ok (record { amount_out = q.amount_out; gas_estimate = q.gas_estimate })
  dispatch edge (curve_pool pool none) amount_in = ok nothing
  dispatch edge (curve_pool pool (some indexes)) amount_in =
      simulate_curve_swap amount_in pool indexes.token_in_idx indexes.token_out_idx
  dispatch edge (weighted_pool price) amount_in = with_indexes price amount_in
  dispatch edge (dodo_pool pool) amount_in = simulate_dodo_swap pool amount_in edge.zero_for_one
  dispatch edge (woofi_pool price) amount_in = with_indexes price amount_in

  unfoldable pub simulate_hop : HopEdge K → ℤ → Result Swap
  simulate_hop edge amount_in =
      if leb_ℤ amount_in (pos 0) then ok nothing else dispatch edge edge.state amount_in

  abbrev pub edge_list : Option (List (HopEdge K)) → List (HopEdge K)
  edge_list none = []
  edge_list (some edges) = edges

  -- The shape that getResultHopCount reads of a result.
  abbrev pub shape_of : RouteSimResult K → ResultShape
  shape_of r = record {
    pool_path = some (length r.pool_path);
    hop_amounts = some (length r.hop_amounts);
    token_path = some (length r.token_path);
    hop_count = some r.hop_count;
  }

  -- The state after a hop.
  abbrev pub push_hop : RouteState K → HopEdge K → Swap → RouteState K
  push_hop s edge swap = record {
    current = swap.amount_out;
    expected_token_in = edge.token_out;
    hop_amounts = s.hop_amounts ++ (swap.amount_out ∷ []);
    total_gas = s.total_gas + swap.gas_estimate;
    pool_path = s.pool_path ++ (edge.pool_address ∷ []);
    token_path = s.token_path ++ (edge.token_out ∷ []);
    protocols = s.protocols ++ (edge.protocol ∷ []);
  }

module _ {K : Type 0} ⦃key : Key K⦄ where
  abbrev pub same_option : Option K → Option K → Bool
  same_option (some a) (some b) = key.same a b
  same_option none b = false
  same_option (some a) none = false

  -- sameRouteToken
  abbrev pub same_route_token : RouteToken K → RouteToken K → Bool
  same_route_token a b = elim a.fast [
    | none ↦ same_option a.normalized b.normalized
    | some fast_a ↦ elim b.fast [
      | none ↦ same_option a.normalized b.normalized
      | some fast_b ↦ key.same fast_a fast_b
    ]
  ]

  -- The loop of simulateRoute.
  unfoldable pub route_loop : List (HopEdge K) → RouteState K → Result (RouteState K)
  route_loop [] s = ok s
  route_loop (edge ∷ edges) s =
      if not (same_route_token edge.token_in s.expected_token_in)
      then ok (record s { current = pos 0 })
      else (simulate_hop edge s.current >>= λ swap.
          let s' = push_hop s edge swap in
          let rest = route_loop edges s' in if eqb_ℤ swap.amount_out (pos 0) then ok s' else rest)

  abbrev pub first_state : RouteToken K → ℤ → ℤ → RouteState K
  first_state start_token amount_in current = record {
    current = current;
    expected_token_in = start_token;
    hop_amounts = amount_in ∷ [];
    total_gas = 0;
    pool_path = [];
    token_path = start_token ∷ [];
    protocols = [];
  }

  -- `!Array.isArray(path.edges) || path.edges.length === 0 || hopCount !== path.edges.length`
  abbrev pub bad_path : Option (List (HopEdge K)) → Number → Bool
  bad_path none hop_count = true
  bad_path (some edges) (whole n) = length edges == 0 || not (eqb_ℤ n (pos (length edges)))
  bad_path (some edges) other = true

  abbrev pub edges_length : Option (List (HopEdge K)) → Option ℕ
  edges_length none = none
  edges_length (some edges) = some (length edges)

  -- The amount that is left at the end of simulateRoute.
  abbrev pub closing_amount : RouteState K → RouteToken K → ℤ
  closing_amount s start_token =
      if ltb_ℤ (pos 0) s.current && not (same_route_token s.expected_token_in start_token)
      then pos 0
      else s.current

  -- The result of simulateRoute from the variables after the loop.
  abbrev pub route_result : RoutePath K → ℤ → Number → RouteState K → RouteSimResult K
  route_result path amount_in hop_count s =
      let amount_out = closing_amount s path.start_token in
      record {
        amount_in = amount_in;
        amount_out = amount_out;
        profit = amount_out -ℤ amount_in;
        profitable = ltb_ℤ (pos 0) (amount_out -ℤ amount_in);
        hop_amounts = s.hop_amounts;
        total_gas = s.total_gas;
        pool_path = s.pool_path;
        token_path = s.token_path;
        protocols = s.protocols;
        hop_count = hop_count;
      }

  -- simulateRoute from its loop on, with the amount left by its test of the path.
  abbrev pub run_route : RoutePath K → ℤ → Number → ℤ → Result (RouteSimResult K)
  run_route path amount_in hop_count current =
      let edges = if ltb_ℤ (pos 0) current then edge_list path.edges else [] in
      route_loop edges (first_state path.start_token amount_in current) >>= λ s.
      ok (route_result path amount_in hop_count s)

  unfoldable pub simulate_route : RoutePath K → ℤ → Result (RouteSimResult K)
  simulate_route path amount_in =
      let hop_count = get_path_hop_count (edges_length path.edges) path.hop_count in
      run_route path amount_in hop_count
        (if bad_path path.edges hop_count then pos 0 else amount_in)
