-- ===== src/Registry.antt =====
-- internal/registry: what a request path names.
pub mod Types
pub mod Purl
pub mod Npm
pub mod Pypi
pub mod Golang
pub mod Identify
