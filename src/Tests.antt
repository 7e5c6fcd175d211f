-- ===== src/Tests.antt =====
-- Runs of the models, and the theorems at concrete inputs.
mod Cache
mod Policy
mod Intel
mod Server
mod Coordination
mod Registry
mod Handle
mod Explain
mod Gate
mod Rewrite
mod Proxy
mod Upstream
