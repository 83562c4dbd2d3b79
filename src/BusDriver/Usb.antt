-- ===== src/BusDriver/Usb.antt =====
-- USB_device_driver_v1_1.c: a USB driver that reports its devices.
pub mod Lifecycle
pub mod Reports
use linux_device_drivers.Base.{ℕ, ℤ, pos, List, [], ◌∷◌}
use linux_device_drivers.Machine.{Ptr, pure, ◌>>=◌, ◌>>◌, invoke}
use linux_device_drivers.Machine.Resources.{Resource, resource, bus_driver}
use linux_device_drivers.Kernel.{
  K, printk, info, usb, add_driver, del_driver, UsbId, interface_to_usbdev,
}
use linux_device_drivers.Kernel.Lifecycle.{Driver}

-- The file has no static variables of its own.
pub record Globals : Type 0 where

unfoldable pub my_usb_probe : Ptr → UsbId → K Globals ℤ
my_usb_probe interface id = do
  invoke
      (printk info "USB device (%04X:%04X) plugged\n" (pos id.id_vendor ∷ pos id.id_product ∷ []))
  pure (pos 0)

-- The device's descriptor, which the kernel keeps, is given with the call.
unfoldable pub my_usb_disconnect : Ptr → UsbId → K Globals (Unit {0})
my_usb_disconnect interface descriptor = do
  invoke (interface_to_usbdev interface)
  invoke (
      printk info "USB device (%04X:%04X) unplugged\n"
        (pos descriptor.id_vendor ∷ pos descriptor.id_product ∷ []))
  pure tt

abbrev pub my_usb_table : List UsbId
my_usb_table = record { id_vendor = 0x1234; id_product = 0x5678 } ∷ []

unfoldable pub my_usb_init : K Globals ℤ
my_usb_init = do ret ← invoke (add_driver usb "my_usb_driver"); pure ret.code

unfoldable pub my_usb_exit : K Globals (Unit {0})
my_usb_exit = do invoke (del_driver usb "my_usb_driver"); pure tt

pub data Operation : Type 0 where
  probe disconnect : Ptr → UsbId → Operation

-- The callbacks of `my_usb_driver`; `disconnect` returns nothing.
unfoldable pub my_usb_driver : Operation → K Globals ℤ
unfolding my_usb_probe my_usb_disconnect
my_usb_driver (probe interface id) = my_usb_probe interface id
my_usb_driver (disconnect interface id) = do my_usb_disconnect interface id; pure (pos 0)

-- What the loaded module holds.
abbrev pub owns : Globals → List Resource
owns g = resource bus_driver 2 ∷ []

abbrev pub usb_module : Driver Globals Operation
usb_module = record {
  statics = record {};
  init = my_usb_init;
  exit = my_usb_exit;
  operation = my_usb_driver;
  owns = owns;
}
