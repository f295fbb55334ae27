-- ===== src/Boot.antt =====
-- src/boot.rs: the boot of an operating system.
pub mod Entry
pub mod Firmware
pub mod Launch
pub mod Volumes
pub mod Bootnext
pub mod Ledger
pub mod Tests
