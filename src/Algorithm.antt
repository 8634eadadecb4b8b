-- ===== src/Algorithm.antt =====
-- The algorithms of dev/lsf/algorithm.
pub mod Combination
