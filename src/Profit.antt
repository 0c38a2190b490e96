-- ===== src/Profit.antt =====
-- src/profit: the gas-adjusted profitability of a simulated route.
pub mod Compute
