-- ===== src/Policy.antt =====
-- internal/policy/policy.go: the types of the package, and the two halves of its engine.
pub mod Types
pub mod Glob
pub mod Engine
