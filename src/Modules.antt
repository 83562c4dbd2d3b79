-- ===== src/Modules.antt =====
-- The twelve modules of the repository, loaded in one kernel: those of MyCanDriver.c,
-- Wi-fi_device_driver.c, MyBlutooth_Device_Driver.c, MyWi-fiDriver.c, Ioctl_kernel_device_driver.c,
-- I2c_driver_test.c, CharSpiKS.c, Spi_kernel_space_test_v1_1.c, USB_device_driver_v1_1.c,
-- UART_as_char_driver_registration.c, net_eth.c and netSpi.c. Their static character devices, and the
-- registrations of the two network drivers, are not told apart, only counted.
use linux_device_drivers.Base.{ℕ, ◌≡◌, ◌∙◌, some, List, ◌++◌}
use linux_device_drivers.Machine.{Env, Log}
use linux_device_drivers.Machine.Resources.{Resource}
use linux_device_drivers.Machine.Resources.Bag.{of_list, on_hand}
use linux_device_drivers.Kernel.{Call, kernel_tracked}
use linux_device_drivers.Kernel.Together.{nothing_left}
use linux_device_drivers.Kernel.Together.OnHand.{HoldsLike-on_hand, on_hand-HoldsLike}
use linux_device_drivers.Kernel.Together.Systems.{System, single, ◌⊗◌, Reaches, Reaches-HoldsLike}
use linux_device_drivers.Kernel.Together.Drain.{IsShared, single-IsShared, ⊗-IsShared}
use linux_device_drivers.CharDriver.Can.{can_driver}
use linux_device_drivers.CharDriver.Wifi.{wifi_driver}
use linux_device_drivers.CharDriver.Bluetooth.{bluetooth_driver}
use linux_device_drivers.CharDriver.Esp32.{esp32_driver}
use linux_device_drivers.CharDriver.Together.{
  can-IsFramed, wifi-IsFramed, bluetooth-IsFramed, esp32-IsFramed,
}
use linux_device_drivers.CharDriver.Ioctl.Lives.{etx_driver}
use linux_device_drivers.CharDriver.Ioctl.Shared.{cdev_left, etx-IsFramed}
use linux_device_drivers.CharDriver.I2c.Lives.{i2c_module}
use linux_device_drivers.CharDriver.I2c.Shared.{MakesNode, i2c-IsFramed}
use linux_device_drivers.CharDriver.SpiChar.Shared.{spi_char_shared, spi_char-IsFramed}
use linux_device_drivers.CharDriver.SpiChar.Shared as SpiChar
use linux_device_drivers.BusDriver.Spi.{spi_module}
use linux_device_drivers.BusDriver.Usb.{usb_module}
use linux_device_drivers.BusDriver.Uart.{uart_module}
use linux_device_drivers.BusDriver.Together.{spi-IsFramed, usb-IsFramed, uart-IsFramed}
use linux_device_drivers.NetDriver.Eth.Lives.{eth_module}
use linux_device_drivers.NetDriver.Eth.Lives as Eth
use linux_device_drivers.NetDriver.Eth.Shared.{eth-IsFramed}
use linux_device_drivers.NetDriver.Eth.Shared as EthShared
use linux_device_drivers.NetDriver.Spi.Lives.{net_module}
use linux_device_drivers.NetDriver.Spi.Lives as NetSpi
use linux_device_drivers.NetDriver.Spi.Shared.{net-IsFramed}
use linux_device_drivers.NetDriver.Spi.Shared as NetSpiShared

-- What the modules together need of the kernel: calls that keep to their documentation, and the
-- device node of the I2C driver, which does not check that it is made.
pub record IsSound (env : Env Call) : Type 0 where
  pub node : MakesNode env
  pub spi_char : SpiChar.IsSound env
  pub eth : Eth.IsSound env
  pub net : NetSpi.IsSound env

abbrev pub plain_modules : System
plain_modules =
    single can_driver nothing_left
    ⊗ single wifi_driver nothing_left
    ⊗ single bluetooth_driver nothing_left
    ⊗ single esp32_driver nothing_left

abbrev pub bus_modules : System
bus_modules =
    single i2c_module nothing_left
    ⊗ single spi_char_shared nothing_left
    ⊗ single spi_module nothing_left
    ⊗ single usb_module nothing_left
    ⊗ single uart_module nothing_left

-- `iow` and `ior` are the macros `_IOW` and `_IOR`.
module _ (iow ior : ℕ → ℕ → ℕ → ℕ) where
  abbrev pub spare_modules : System
  spare_modules =
      single (etx_driver iow ior) cdev_left
      ⊗ single eth_module EthShared.packets_left
      ⊗ single net_module NetSpiShared.packets_left

  abbrev pub modules : System
  modules = plain_modules ⊗ bus_modules ⊗ spare_modules

module _ (env : Env Call) where
  plain_modules-IsShared : IsShared plain_modules env
  plain_modules-IsShared =
      ⊗-IsShared _ _ env (single-IsShared can_driver nothing_left env (can-IsFramed env)) (
        ⊗-IsShared _ _ env (single-IsShared wifi_driver nothing_left env (wifi-IsFramed env)) (
          ⊗-IsShared _ _ env
            (single-IsShared bluetooth_driver nothing_left env (bluetooth-IsFramed env))
            (single-IsShared esp32_driver nothing_left env (esp32-IsFramed env))))

  bus_modules-IsShared : IsSound env → IsShared bus_modules env
  bus_modules-IsShared sound =
      ⊗-IsShared _ _ env (single-IsShared i2c_module nothing_left env (i2c-IsFramed env sound.node))
        (⊗-IsShared _ _ env
          (single-IsShared spi_char_shared nothing_left env (spi_char-IsFramed env sound.spi_char))
          (⊗-IsShared _ _ env (single-IsShared spi_module nothing_left env (spi-IsFramed env)) (
            ⊗-IsShared _ _ env (single-IsShared usb_module nothing_left env (usb-IsFramed env))
              (single-IsShared uart_module nothing_left env (uart-IsFramed env)))))

  spare_modules-IsShared :
      (iow ior : ℕ → ℕ → ℕ → ℕ) → IsSound env → IsShared (spare_modules iow ior) env
  spare_modules-IsShared iow ior sound =
      ⊗-IsShared _ _ env
        (single-IsShared (etx_driver iow ior) cdev_left env (etx-IsFramed iow ior env))
        (⊗-IsShared _ _ env
          (single-IsShared eth_module EthShared.packets_left env (eth-IsFramed env sound.eth))
          (single-IsShared net_module NetSpiShared.packets_left env (net-IsFramed env sound.net)))

modules-IsShared :
    (iow ior : ℕ → ℕ → ℕ → ℕ) (env : Env Call) → IsSound env → IsShared (modules iow ior) env
modules-IsShared iow ior env sound =
    ⊗-IsShared _ _ env (plain_modules-IsShared env) (
      ⊗-IsShared _ _ env (bus_modules-IsShared env sound)
        (spare_modules-IsShared env iow ior sound))

-- All twelve modules in one kernel: they are loaded, operated and removed in any order and as often
-- as one likes. The kernel's calls return NULL or an address where they are documented to, an SPI
-- transfer fills its buffer, and the I2C driver's device node is made; else the kernel answers as it
-- likes. Then no call has given back a thing that was not held, and what is on hand is, up to order,
-- what was on hand before, what each loaded module owns, and what stays behind: a character device
-- for each load of the ioctl driver that failed at its class or its device node, each packet to be
-- sent whose headers the Ethernet driver has accepted, and each packet that the SPI network driver was
-- handed to send. A run ends where a function faults.
pub modules-on_hand :
    (iow ior : ℕ → ℕ → ℕ → ℕ) (env : Env Call) (rest : List Resource)
    (c d : (modules iow ior).Config) (l k : Log Call)
    → IsSound env
    → on_hand l ≡ some (of_list ((modules iow ior).holds c ++ rest))
    → Reaches (modules iow ior) env c l d k
    → on_hand k ≡ some (of_list ((modules iow ior).holds d ++ rest))
modules-on_hand iow ior env rest c d l k sound h r =
    let before = on_hand-HoldsLike ((modules iow ior).holds c ++ rest) l h in
    HoldsLike-on_hand ((modules iow ior).holds d ++ rest) k (
      Reaches-HoldsLike (modules iow ior) env (modules-IsShared iow ior env sound).framed rest c l d
        k before r)

-- On a kernel whose calls return NULL or an address where they are documented to, with SPI transfers
-- that fill their buffers and a device node for the I2C driver: from every configuration of the twelve
-- modules where what is on hand is what they hold besides something else, steps lead to one where no
-- module is loaded. There what is on hand is, up to order, that something else and what had stayed
-- behind before.
pub modules-Removed :
    (iow ior : ℕ → ℕ → ℕ → ℕ) (env : Env Call) (rest : List Resource) (c : (modules iow ior).Config)
    (l : Log Call)
    → IsSound env
    → on_hand l ≡ some (of_list ((modules iow ior).holds c ++ rest))
    → (d : (modules iow ior).Config) × (k : Log Call) × Reaches (modules iow ior) env c l d k
      × (modules iow ior).Idle d
      × (on_hand k ≡ some (of_list ((modules iow ior).spares c ++ rest)))
modules-Removed iow ior env rest c l sound h =
    let drains = (modules-IsShared iow ior env sound).drains in
    let end = drains.drain rest c l (on_hand-HoldsLike ((modules iow ior).holds c ++ rest) l h) in
    let left = rw (drains.idle_holds end.config end.idle ∙ end.no_more) at end.held_then in
    (
      end.config,
      end.log,
      end.reached,
      end.idle,
      HoldsLike-on_hand ((modules iow ior).spares c ++ rest) end.log left,
    )
