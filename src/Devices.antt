-- ===== src/Devices.antt =====
-- The devices that a connection can see: features.go, device_tracker.go and adb_connection.go of
-- internal/proxy.
pub mod Features
pub mod Tracker
pub mod Stable
pub mod Visible
pub mod Host
pub mod Route
pub mod Isolated
