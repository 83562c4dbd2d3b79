-- ===== src/NetDriver.antt =====
-- The network drivers.
pub mod Counts
pub mod Eth
pub mod Spi
