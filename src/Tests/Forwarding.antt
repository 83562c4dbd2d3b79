-- ===== src/Tests/Forwarding.antt =====
-- A packet whose time to live is 0, forwarded at concrete answers.
use linux_device_drivers.Kernel.{kernel_tracked}
