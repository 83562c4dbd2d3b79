-- ===== src/BusDriver/Spi.antt =====
-- Spi_kernel_space_test_v1_1.c: an SPI driver that remembers its device, and its two transfers.
pub mod Lifecycle
pub mod Transfers
use linux_device_drivers.Base.{ℕ, ℤ, pos, List, [], ◌∷◌}
use linux_device_drivers.Machine.{Ptr, null, pure, ◌>>=◌, ◌>>◌, invoke, get, put}
use linux_device_drivers.Machine.Resources.{Resource, resource, bus_driver}
use linux_device_drivers.Kernel.{
  K, Bus, add_driver, del_driver, Transfer, spi_message_init, spi_message_add_tail, spi_sync,
}
use linux_device_drivers.Kernel.Lifecycle.{Driver}

pub record Globals : Type 0 where
  pub spi_dev : Ptr

unfoldable pub spi_driver_probe : Ptr → K Globals ℤ
spi_driver_probe spi = do put (record { spi_dev = spi }); pure (pos 0)

unfoldable pub spi_driver_remove : Ptr → K Globals ℤ
spi_driver_remove spi = do put (record { spi_dev = null }); pure (pos 0)

unfoldable pub spi_driver_init : K Globals ℤ
spi_driver_init = do ret ← invoke (add_driver Bus.spi "my_spi_driver"); pure ret.code

unfoldable pub spi_driver_exit : K Globals (Unit {0})
spi_driver_exit = do invoke (del_driver Bus.spi "my_spi_driver"); pure tt

-- A `struct spi_transfer` after `memset`.
abbrev pub cleared : Transfer
cleared = record { tx_buf = null; rx_buf = null; len = 0 }

unfoldable pub spi_write : Ptr → Ptr → ℕ → K Globals ℤ
spi_write device bytes len = do
  invoke spi_message_init
  let transfer = record cleared { tx_buf = bytes; len = len }
  invoke (spi_message_add_tail transfer)
  status ← invoke (spi_sync device)
  pure status.code

unfoldable pub spi_read : Ptr → Ptr → ℕ → K Globals ℤ
spi_read device bytes len = do
  invoke spi_message_init
  let transfer = record cleared { rx_buf = bytes; len = len }
  invoke (spi_message_add_tail transfer)
  status ← invoke (spi_sync device)
  pure status.code

-- What may be asked of the driver while it is loaded: its callbacks, and its transfers.
pub data Operation : Type 0 where
  probe remove : Ptr → Operation
  write read : Ptr → Ptr → ℕ → Operation

unfoldable pub spi_driver : Operation → K Globals ℤ
unfolding spi_driver_probe spi_driver_remove spi_write spi_read
spi_driver (probe spi) = spi_driver_probe spi
spi_driver (remove spi) = spi_driver_remove spi
spi_driver (write device bytes len) = spi_write device bytes len
spi_driver (read device bytes len) = spi_read device bytes len

-- What the loaded module holds.
abbrev pub owns : Globals → List Resource
owns g = resource bus_driver 1 ∷ []

abbrev pub spi_module : Driver Globals Operation
spi_module = record {
  statics = record { spi_dev = null };
  init = spi_driver_init;
  exit = spi_driver_exit;
  operation = spi_driver;
  owns = owns;
}
