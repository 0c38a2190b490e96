-- ===== src/Hypersync.antt =====
-- src/hypersync: paginated log queries.
pub mod Paginate
