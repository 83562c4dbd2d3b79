-- ===== src/UserProgram.antt =====
-- The user programs.
pub mod Wifi
pub mod Uart
pub mod I2c
pub mod Usb
pub mod Can
pub mod Bluetooth
pub mod Spi
pub mod Scan
pub mod RawSocket
pub mod Hello
