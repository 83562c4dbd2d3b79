-- ===== src/BusDriver/Together.antt =====
-- What the bus drivers take and give back in a kernel where other modules hold things too.
use linux_device_drivers.Base.{arith}
use linux_device_drivers.Machine.{Env}
use linux_device_drivers.Machine.Resources.{resource, bus_driver, held}
use linux_device_drivers.Kernel.{Call, kernel_tracked}
use linux_device_drivers.Kernel.Together.{IsFramed, nothing_left}
use linux_device_drivers.Kernel.Together.Exit.{give_back}
use linux_device_drivers.BusDriver.Spi.{spi_module, spi_driver_init, spi_driver_exit, spi_driver}
use linux_device_drivers.BusDriver.Usb.{usb_module, my_usb_init, my_usb_exit, my_usb_driver}
use linux_device_drivers.BusDriver.Uart.{uart_module, my_uart_init, my_uart_exit}

pub spi-IsFramed : (env : Env Call) → IsFramed spi_module nothing_left env
unfolding spi_driver_init spi_driver_exit spi_driver held
spi-IsFramed env = record {
  init_adds = λ s things h. ground arith;
  exit_removes = λ s things rest h alike.
      let (ys, given, left) = give_back (resource bus_driver 1) things rest alike in
      (ys, ground arith, left);
  operation_keeps = λ op s things h. ground arith;
}

pub usb-IsFramed : (env : Env Call) → IsFramed usb_module nothing_left env
unfolding my_usb_init my_usb_exit my_usb_driver held
usb-IsFramed env = record {
  init_adds = λ s things h. ground arith;
  exit_removes = λ s things rest h alike.
      let (ys, given, left) = give_back (resource bus_driver 2) things rest alike in
      (ys, ground arith, left);
  operation_keeps = λ op s things h. ground arith;
}

pub uart-IsFramed : (env : Env Call) → IsFramed uart_module nothing_left env
unfolding my_uart_init my_uart_exit held
uart-IsFramed env = record {
  init_adds = λ s things h. ground arith;
  exit_removes = λ s things rest h alike.
      let (ys, given, left) = give_back (resource bus_driver 3) things rest alike in
      (ys, ground arith, left);
  operation_keeps = λ op s things h. elim op [ ];
}
