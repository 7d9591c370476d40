-- ===== src/Relays.antt =====
-- internal/proxy/relay.go: the records of relayed phones, and the two ends of a relayed connection.
pub mod Records
pub mod Once
pub mod Current
pub mod Holder
pub mod Owner
pub mod Clean
