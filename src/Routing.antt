-- ===== src/Routing.antt =====
-- src/routing: the graph of swaps, hop counts, the freshness and identity of routes, and the cache of routes.
pub mod Graph
pub mod PathHops
pub mod PathFreshness
pub mod RouteIdentity
pub mod RouteCache
pub mod SwapIndices
pub mod Simulator
