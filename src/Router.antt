-- ===== src/Router.antt =====
-- The proxy's side of the orchestrator (internal/proxy/command_router.go, session.go) and of the
-- device sources, and the keepalive loop of a scoped port that uses it.
pub mod Session
pub mod Sources
pub mod Orchestrator
pub mod Retries
pub mod Keepalive
pub mod Shipped
pub mod Flushed
pub mod Events
