-- ===== src/Intel.antt =====
-- internal/intel: vulnerability findings, the decision on them, and the OSV provider.
pub mod Decision
pub mod Ranges
pub mod Osv
pub mod Provider
