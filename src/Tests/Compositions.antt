-- ===== src/Tests/Compositions.antt =====
-- Drivers and programs put together, at concrete answers.
use linux_device_drivers.Base.{
  ℕ, ◌*◌, ◌+◌, ◌^◌, inl, pos, ◌≡◌, refl, List, [], ◌∷◌, ◌++◌, replicate, map,
}
use linux_device_drivers.Machine.{Reply, Env, St, addr, Returns}
use linux_device_drivers.Machine.Resources.{nested}
use linux_device_drivers.Kernel
use linux_device_drivers.Kernel.{
  kernel_tracked, FileOp, open_file, release_file, read_file, write_file,
}
use linux_device_drivers.CharDriver.Can
use linux_device_drivers.CharDriver.Can.{can_driver}
use linux_device_drivers.CharDriver.Wifi
use linux_device_drivers.CharDriver.Wifi.{wifi_driver, wifi_fops}
use linux_device_drivers.CharDriver.Bluetooth
use linux_device_drivers.CharDriver.Bluetooth.{bluetooth_driver}
use linux_device_drivers.CharDriver.FixedNumber.{
  Step, load, unload, operate, answers, blind, EndSame,
}
use linux_device_drivers.CharDriver.FixedNumber.Agreement.{
  can_dev, wifi_dev, bluetooth_dev, fixed_drivers-EndSame,
}
use linux_device_drivers.NetDriver.Eth
use linux_device_drivers.NetDriver.Eth.Traffic.{
  traffic, verdict, Unchanged, HasMemory, traffic-Unchanged,
}
use linux_device_drivers.Posix
use linux_device_drivers.Posix.{posix_tracked}
use linux_device_drivers.UserProgram.RawSocket
use linux_device_drivers.UserProgram.RawSocket.Request.{sent}
use linux_device_drivers.UserProgram.RawSocket.Run.{Ends, raw_main-Ends}
use linux_device_drivers.Tests.Support.{granting, success, start}

abbrev steps : List Step
steps =
    load
    ∷ operate open_file
    ∷ operate (write_file 5)
    ∷ operate (read_file 9)
    ∷ operate release_file
    ∷ unload
    ∷ []

abbrev idle_can : St Kernel.Call Can.Globals
idle_can = start (record { dev = 0 })

abbrev idle_wifi : St Kernel.Call Wifi.Globals
idle_wifi = start (record { dev = 0 })

abbrev idle_bluetooth : St Kernel.Call Bluetooth.Globals
idle_bluetooth = start (record { dev = 0 })

-- The number of a major and a minor number in the kernel.
abbrev number : ℕ → ℕ → ℕ
number major minor = major * 2 ^ 20 + minor

fixed_drivers-EndSame_example :
    let can = answers can_driver steps (blind number granting) idle_can in
    EndSame number Can.major_num Wifi.major_num can_dev wifi_dev can
      (answers wifi_driver steps (blind number granting) idle_wifi)
    × EndSame number Can.major_num Bluetooth.major_num can_dev bluetooth_dev can
        (answers bluetooth_driver steps (blind number granting) idle_bluetooth)
fixed_drivers-EndSame_example =
    fixed_drivers-EndSame number steps granting idle_can idle_wifi idle_bluetooth
      (inl (refl, refl), refl) (inl (refl, refl), refl)

-- A packet of three bytes, one of 34 bytes that is no ICMPv6, and one of 60 bytes that is.
abbrev arrivals : List (List ℕ)
arrivals = (1 ∷ 2 ∷ 3 ∷ []) ∷ replicate 34 6 ∷ (replicate 23 1 ++ (58 ∷ replicate 36 129)) ∷ []

abbrev eth_start : St Kernel.Call Eth.Globals
eth_start = start (record { mtu = 1500 })

abbrev granting-HasMemory : HasMemory granting
granting-HasMemory = record { memory = λ l n. refl; packets = λ l n. refl }

traffic-Unchanged_example :
    Returns
      (λ rs t. (rs ≡ map verdict arrivals) × Unchanged eth_start t)
      (traffic arrivals granting eth_start)
traffic-Unchanged_example =
    traffic-Unchanged arrivals granting eth_start granting-HasMemory (refl, (refl, (refl, tt)))

-- A system that grants everything, with 106 bytes of memory.
abbrev grant : Reply
grant = record { code = pos 4; ptr = addr 40; num = 7; bytes = replicate 106 9 }

abbrev granting_system : Env Posix.Call
granting_system l c = grant

abbrev mac : List ℕ
mac = 0x00 ∷ 0x0c ∷ 0x22 ∷ 0x44 ∷ 0xaa ∷ 0xbb ∷ []

raw_main-Ends_example : Ends mac [] [] (RawSocket.main mac granting_system (start tt))
unfolding nested sent
raw_main-Ends_example = raw_main-Ends mac granting_system (start tt) [] refl (λ l. refl) refl

-- The kernel has just made a packet for what arrived.
abbrev arrived : St Kernel.Call Eth.Globals
arrived = record eth_start {
  log = record { call = Kernel.dev_alloc_skb 106; reply = record success { ptr = addr 9 } } ∷ [];
}
