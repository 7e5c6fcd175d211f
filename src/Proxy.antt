-- ===== src/Proxy.antt =====
-- internal/proxy: what is sent upstream, what is answered to the client and what is stored.
pub mod Headers
pub mod Cacheable
pub mod Redirect
pub mod CacheKey
pub mod Spool
pub mod Load
pub mod Response
pub mod Freshness
pub mod Npm
pub mod Paths
pub mod Store
pub mod Upstream
pub mod Fill
pub mod Serve
pub mod Rewrite
