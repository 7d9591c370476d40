-- ===== src/Logging.antt =====
-- internal/logging: what is kept of the log, and what is cut out of it.
pub mod Redact
pub mod Recent
pub mod Latest
pub mod Turns
