-- ===== src/Tests.antt =====
-- The theorems at concrete answers of the kernel and of the C library.
mod Support
mod CharDrivers
mod Registers
mod BusDrivers
mod NetDrivers
mod Forwarding
mod Programs
mod Scans
mod Receivers
mod Threads
mod Devices
mod Compositions
mod Together
