-- ===== src/Server.antt =====
-- internal/server/server.go: the decision about a request, routing, authorization and the limiter.
pub mod Decide
pub mod Handle
pub mod Bucket
pub mod Gate
