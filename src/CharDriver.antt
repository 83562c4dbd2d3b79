-- ===== src/CharDriver.antt =====
-- The character drivers.
pub mod Together
pub mod Can
pub mod Wifi
pub mod Bluetooth
pub mod Esp32
pub mod I2c
pub mod Ioctl
pub mod SpiChar
pub mod FixedNumber
