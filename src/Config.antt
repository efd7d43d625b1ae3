-- ===== src/Config.antt =====
-- pkg/config: the devices, bootloaders and virtual machines that a command line describes.
pub mod Machine
pub mod Options
pub mod TimeSync
pub mod Bootloader
pub mod Device
