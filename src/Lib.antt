-- ===== src/Lib.antt =====
-- Verification of the arbitrage bot: pool pricing, profit assessment, route freshness, gas
-- fees and nonce allocation.
--
-- The bot finds cycles of swaps over decentralised-exchange pools, simulates them with local copies of
-- the pools' pricing rules, assesses the profit of a simulated cycle and sends a transaction. This
-- library models the parts that decide amounts and nonces, that keep the routes found, and that fetch
-- logs page by page. The pricing rules are pure functions on
-- BigInt; the profit assessment reads a simulation result and its options; the transaction sender
-- asks the nonce manager for nonces and the gas module for fees within a budget.
--
--   Prelude                 shared types: integers for BigInt (Int), thrown errors as results
--                           (Results), numbers of JavaScript as integers or anything else (Number),
--                           `Map` as an association list (Keys), array methods and sets (Arrays),
--                           division lemmas (Division)
--   Math/FullMath           src/math/full_math.ts: mulDiv, mulDivRoundingUp, divRoundingUp
--   Math/SqrtPrice          src/math/sqrt_price_math.ts: next prices and amount deltas
--   Math/SwapStep           src/math/swap_math.ts: computeSwapStep, in its two halves
--   Math/TickMath           src/math/tick_math.ts: getSqrtRatioAtTick and the binary search back
--   Math/UniswapV2          src/math/uniswap_v2.ts: both quotes and the simulator
--   Math/InitializedTicks   src/math/uniswap_v3.ts: getSortedTicks, nextInitializedTickOptimized
--   Math/UniswapV3          src/math/uniswap_v3.ts: simulateV3Swap, round by round
--   Math/Dodo               src/math/dodo.ts: sqrt, the trade quadratic and the quotes
--   Math/Woofi              src/math/woofi.ts: the quotes of a WOOFi pool
--   Math/Curve              src/math/curve.ts: getD, getY and getCurveAmountOut
--   Math/CurveIn            src/math/curve.ts: getCurveAmountIn and the simulator
--   Routing/Graph           src/routing/graph.ts: RoutingGraph, addEdge and the queries
--   Routing/PathHops        src/routing/path_hops.ts: hop counts
--   Routing/RouteIdentity   src/routing/route_identity.ts: the keys of routes
--   Routing/RouteCache      src/routing/route_cache.ts: the class RouteCache and its pool index
--   Routing/SwapIndices     src/routing/swap_indices.ts: resolveSwapTokenIndexes
--   Routing/Simulator       src/routing/simulator.ts: simulateHop, simulateRoute; its children
--                           Optimize and Batch: optimizeInputAmount and evaluatePaths
--   Routing/PathFreshness   src/routing/path_freshness.ts: getPathFreshness
--   Profit/Compute          src/profit/compute.ts: computeProfit and its deductions
--   Execution/NonceManager  src/execution/nonce_manager.ts: the class, one call after another
--   Execution/GasFees       src/execution/gas.ts: fee snapshots and capGasFeesToBudget
--   Execution/GasCache      src/execution/gas.ts: the cache of gas estimates
--   Hypersync/Paginate      src/hypersync/paginate.ts: fetchAllLogsWithClient, with the client as a
--                           parameter
--   Arb/Assessment          src/arb/assessment.ts: options, assessments and order of candidates
--   Util/BoundedPriority    src/util/bounded_priority.ts: takeTopNBy
--   Reorg                   src/reorg/detect.ts: detectReorg
--   Tests                   runs and instances at concrete inputs
--
-- A BigInt is an integer of Prelude.Int; `/` throws on zero and rounds toward zero. `x >> k` on values
-- that are not negative is a quotient by 2^k. A function that can throw returns a result.
--
-- Loops: the binary search over ticks runs on fuel `search_fuel`, more than the number of ticks of the
-- whole range, and the calls between getTickAtSqrtRatio and getTickAtSqrtRatioInRange nest at most
-- twice, since the second call is over the whole range. The Newton loops of Curve keep the 255
-- iterations of the source, and the loop of simulateV3Swap its 500. The binary search over sorted ticks
-- runs on the length of the list, which each round shrinks; the square root of Dodo on its first
-- value, which each round lowers.
--
-- The loop of fetchAllLogsWithClient runs on one more than its limit of pages, which each round uses up by
-- one; the loop of optimizeInputAmount keeps the iterations of its options. The binary search of
-- takeTopNBy runs on the number of items kept, which each round shrinks.
--
-- Not modelled: RPC and database access, the watchers, worker threads, ABI encoding and the display,
-- which are input and output or a library's behaviour; conversion of the return on investment to a
-- floating-point number; calls of the nonce manager for one account that overlap at an await; the
-- pricing of Balancer pools, which a simulated hop takes as a function of the amount, as it does that
-- of WOOFi pools; the removal and replacement of pools in RoutingGraph.
pub mod Prelude
pub mod Math
pub mod Routing
pub mod Profit
pub mod Execution
pub mod Hypersync
pub mod Arb
pub mod Util
pub mod Reorg
mod Tests
