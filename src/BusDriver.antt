-- ===== src/BusDriver.antt =====
-- The drivers that register with a bus and make no character device.
pub mod Spi
pub mod Usb
pub mod Uart
pub mod Together
