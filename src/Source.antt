-- ===== src/Source.antt =====
-- The device source (internal/devicesource): what it runs on a phone, and what it makes of the
-- phone's answers. One phone at a time is modelled: the server's maps by serial are that phone's
-- entries.
pub mod Shell
pub mod Only
pub mod Serial
pub mod Packages
pub mod Kept
pub mod Reboot
pub mod Screen
pub mod Bluetooth
pub mod Settles
pub mod Settled
pub mod Strand
pub mod Networks
pub mod Wifi
pub mod Waits
pub mod Online
pub mod Joins
pub mod Counted
pub mod Rounds
