-- ===== src/Ports.antt =====
-- The scoped ports (internal/proxy/scoped_port.go).
pub mod Branch
pub mod World
pub mod Device
pub mod Reset
pub mod Manager
pub mod Acquire
pub mod Keeps
pub mod Steps
pub mod Lifecycle
pub mod Ended
pub mod Closed
pub mod Prepared
pub mod AllOrNothing
pub mod Bluetooth
pub mod Conns
pub mod RemoteIds
