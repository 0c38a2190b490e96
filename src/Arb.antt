-- ===== src/Arb.antt =====
-- src/arb: the assessment of candidates.
pub mod Assessment
