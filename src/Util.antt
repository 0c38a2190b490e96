-- ===== src/Util.antt =====
-- src/util: the bounded selection.
pub mod BoundedPriority
