-- ===== src/Execution.antt =====
-- src/execution: nonces and gas fees of transactions.
pub mod NonceManager
pub mod GasFees
pub mod GasCache
