-- ===== src/BusDriver/Uart.antt =====
-- UART_as_char_driver_registration.c: a UART driver; the file leaves its file operations open.
pub mod Lifecycle
use linux_device_drivers.Base.{ℤ, pos, List, [], ◌∷◌, is_nonzero, if◌then◌else◌}
use linux_device_drivers.Machine.{pure, ◌>>=◌, ◌>>◌, invoke}
use linux_device_drivers.Machine.Resources.{Resource, resource, bus_driver}
use linux_device_drivers.Kernel.{K, printk, error, uart, add_driver, del_driver, pr_info}
use linux_device_drivers.Kernel.Lifecycle.{Driver}

-- The file has no static variables that change.
pub record Globals : Type 0 where

unfoldable pub my_uart_init : K Globals ℤ
my_uart_init = do
  ret ← invoke (add_driver uart "my_uart")
  if is_nonzero ret.code
      then (do
        invoke (printk error "Failed to register UART driver: %d\n" (ret.code ∷ []))
        pure ret.code)
      else do pr_info "UART driver initialized successfully!\n"; pure (pos 0)

unfoldable pub my_uart_exit : K Globals (Unit {0})
my_uart_exit = do invoke (del_driver uart "my_uart"); pr_info "UART driver exited.\n"; pure tt

-- The file operations have no bodies in the file, and the table is given to no call: nothing is asked
-- of the loaded module.
pub data Operation : Type 0 where

unfoldable pub uart_fops : Operation → K Globals ℤ
uart_fops op = elim op [ ]

-- What the loaded module holds.
abbrev pub owns : Globals → List Resource
owns g = resource bus_driver 3 ∷ []

abbrev pub uart_module : Driver Globals Operation
uart_module = record {
  statics = record {};
  init = my_uart_init;
  exit = my_uart_exit;
  operation = uart_fops;
  owns = owns;
}
