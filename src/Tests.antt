-- ===== src/Tests.antt =====
-- Witnesses of the theorems at concrete inputs, and runs of the modelled code.
mod Math
mod Profit
mod Execution
mod UniswapV3
mod Dodo
mod Routing
mod RouteCache
mod Simulator
mod Woofi
mod Util
mod Graph
mod Reorg
mod Hypersync
mod Gas
