-- ===== src/Tests/Together.antt =====
-- Modules that are loaded together, at concrete answers.
use linux_device_drivers.Base.{
  ◌≡◌, some, ◌++◌, ℕ, refl, true, false, Bool, List, [], ◌∷◌, arith, replicate,
}
use linux_device_drivers.Machine.{St, Env, Log, Reply, err_ptr}
use linux_device_drivers.Machine.Resources.{Resource, resource, cdev_added, skb, held}
use linux_device_drivers.Machine.Resources.Bag.{of_list, on_hand}
use linux_device_drivers.Kernel.{Call, kernel_tracked, class_create}
use linux_device_drivers.Kernel.History.{last_fallible}
use linux_device_drivers.Kernel.Together.{Module, insmod, insmod_fails, operate, rmmod}
use linux_device_drivers.Kernel.Together.Systems.{
  Both, left_moves, right_moves, Reaches, here, later, ◌⊗◌, single,
}
use linux_device_drivers.Kernel.Lifecycle.{Driver}
use linux_device_drivers.CharDriver.Can
use linux_device_drivers.CharDriver.Can.{can_driver}
use linux_device_drivers.CharDriver.Wifi.{wifi_driver}
use linux_device_drivers.CharDriver.Bluetooth.{bluetooth_driver}
use linux_device_drivers.CharDriver.Esp32.{esp32_driver}
use linux_device_drivers.CharDriver.Ioctl
use linux_device_drivers.CharDriver.Ioctl.Lives.{etx_driver}
use linux_device_drivers.CharDriver.I2c.Lives.{i2c_module}
use linux_device_drivers.CharDriver.SpiChar.Shared.{spi_char_shared}
use linux_device_drivers.BusDriver.Spi.{spi_module}
use linux_device_drivers.BusDriver.Usb.{usb_module}
use linux_device_drivers.BusDriver.Uart.{uart_module}
use linux_device_drivers.NetDriver.Eth.Lives.{eth_module}
use linux_device_drivers.NetDriver.Spi as NetSpi
use linux_device_drivers.NetDriver.Spi.Lives
use linux_device_drivers.NetDriver.Spi.Lives.{net_module}
use linux_device_drivers.NetDriver.Spi.Shared as NetSpiShared
use linux_device_drivers.Modules
use linux_device_drivers.Modules.{modules, modules-on_hand, modules-Removed}
use linux_device_drivers.Tests.Support.{success, start, state_of}

abbrev iow : ℕ → ℕ → ℕ → ℕ
iow type number size = 1

abbrev ior : ℕ → ℕ → ℕ → ℕ
ior type number size = 2

abbrev module_of : {G : Type 0} → Bool → G → List Resource → Module G
module_of b g spare = record { loaded = b; globals = g; spare = spare }

infixr 5 ◌&◌
abbrev ◌&◌ : {C D : Type 0} → C → D → Both C D
c & d = record { left = c; right = d }

abbrev idle : {G Op : Type 0} → Driver G Op → Module G
idle d = module_of false d.statics []

-- The CAN, the network and the ioctl module as given, the others not loaded.
abbrev configured :
    Module Can.Globals → Module NetSpi.Globals → Module Ioctl.Globals → (modules iow ior).Config
unfolding ◌⊗◌ single
configured can net etx =
    (can & idle wifi_driver & idle bluetooth_driver & idle esp32_driver)
    & (idle i2c_module
        & idle spi_char_shared
        & idle spi_module
        & idle usb_module
        & idle uart_module)
    & (etx & idle eth_module & net)

-- A kernel that grants everything but classes.
abbrev kernel_answer : Call → Reply
kernel_answer (class_create _) = record success { ptr = err_ptr 11 }
kernel_answer _ = success

abbrev kernel : Env Call
kernel l c = kernel_answer c

abbrev loaded_can : St Call Can.Globals
loaded_can = state_of (Can.can_init kernel (start can_driver.statics))

abbrev failed_etx : St Call Ioctl.Globals
failed_etx = state_of (
    Ioctl.etx_driver_init kernel
      (record { globals = (etx_driver iow ior).statics; log = loaded_can.log }))

abbrev loaded_net : St Call NetSpi.Globals
loaded_net =
    state_of
      (NetSpi.my_netdev_init kernel (record { globals = net_module.statics; log = failed_etx.log }))

abbrev packet : Lives.Request
packet = Lives.send (replicate 6 3) "10.0.0.1"

abbrev sent_net : St Call NetSpi.Globals
sent_net = state_of (Lives.serve packet kernel loaded_net)

abbrev removed_can : St Call Can.Globals
removed_can =
    state_of (Can.can_exit kernel (record { globals = loaded_can.globals; log = sent_net.log }))

abbrev at_first : (modules iow ior).Config
at_first = configured (idle can_driver) (idle net_module) (idle (etx_driver iow ior))

abbrev at_last : (modules iow ior).Config
at_last =
    configured (module_of false loaded_can.globals [])
      (module_of true sent_net.globals (resource skb 41 ∷ []))
      (module_of false failed_etx.globals (resource cdev_added 0 ∷ []))

abbrev in_use : (modules iow ior).Config
in_use =
    configured (module_of true loaded_can.globals [])
      (module_of true sent_net.globals (resource skb 41 ∷ []))
      (module_of false failed_etx.globals (resource cdev_added 0 ∷ []))

-- The CAN module is loaded, loading the ioctl module fails, and the network module is loaded and
-- handed a packet.
in_turn : Reaches (modules iow ior) kernel at_first [] in_use sent_net.log
unfolding ◌⊗◌ single Can.can_init Ioctl.etx_driver_init Ioctl.add_cdev Ioctl.create_class
    NetSpi.my_netdev_init Lives.serve NetSpi.my_netdev_ops last_fallible NetSpiShared.newest_packet
in_turn =
    later
      (later
        (later (later here (left_moves (left_moves (insmod {t = loaded_can} refl refl refl))))
          (right_moves (right_moves (left_moves (insmod_fails {t = failed_etx} refl refl refl)))))
        (right_moves
          (right_moves (right_moves (right_moves (insmod {t = loaded_net} refl refl refl))))))
      (right_moves
        (right_moves (right_moves (right_moves (operate {t = sent_net} packet refl refl)))))

-- Then the CAN module is removed.
one_removed : Reaches (modules iow ior) kernel at_first [] at_last removed_can.log
unfolding ◌⊗◌ single Can.can_exit
one_removed = later in_turn (left_moves (left_moves (rmmod {t = removed_can} refl refl)))

abbrev kernel-IsSound : Modules.IsSound kernel
kernel-IsSound = record {
  node = λ l class dev. refl;
  spi_char = record { alloc = λ l. refl; transfers = λ l. refl; fills = λ l. omega arith };
  eth = record { allocates = λ n l. refl; memory = λ n l. refl };
  net = record { transfers = λ l. refl; allocates = λ n l. refl; fills = λ l. omega arith };
}

modules-on_hand_example :
    on_hand removed_can.log ≡ some (of_list ((modules iow ior).holds at_last ++ []))
unfolding held ◌⊗◌ single
modules-on_hand_example =
    modules-on_hand iow ior kernel [] at_first at_last [] removed_can.log kernel-IsSound refl
      one_removed

in_use-on_hand : on_hand sent_net.log ≡ some (of_list ((modules iow ior).holds in_use ++ []))
unfolding held ◌⊗◌ single
in_use-on_hand =
    modules-on_hand iow ior kernel [] at_first in_use [] sent_net.log kernel-IsSound refl in_turn

modules-Removed_example :
    (d : (modules iow ior).Config) × (k : Log Call) × Reaches
      (modules iow ior)
      kernel
      in_use
      sent_net.log
      d
      k
    × (modules iow ior).Idle d
    × (on_hand k ≡ some (of_list ((modules iow ior).spares in_use ++ [])))
modules-Removed_example =
    modules-Removed iow ior kernel [] in_use sent_net.log kernel-IsSound in_use-on_hand
