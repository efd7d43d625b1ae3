-- ===== src/Marshal.antt =====
-- pkg/config/json.go: the configuration as JSON, in both directions.
pub mod Devices
pub mod Fields
pub mod ReadDevices
pub mod Bootloaders
pub mod Machine
pub mod RoundTrip
pub mod Kinds
