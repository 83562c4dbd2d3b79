-- ===== src/Tests/Devices.antt =====
-- The Wi-Fi program on the devices of two drivers.
use linux_device_drivers.Base.{pos, refl, some, none, Option, [], ℤ, replicate}
use linux_device_drivers.Machine.{Reply, Env, Log, St, addr, null, Returns}
use linux_device_drivers.Kernel
use linux_device_drivers.Kernel.{K, FileOp}
use linux_device_drivers.CharDriver.Wifi
use linux_device_drivers.CharDriver.Esp32
use linux_device_drivers.Posix
use linux_device_drivers.UserProgram.Wifi.{main}
use linux_device_drivers.UserProgram.Wifi.Attached.{
  operation_of, result_of, entry_answer, driver, Answers,
}
use linux_device_drivers.UserProgram.Wifi.Device
use linux_device_drivers.UserProgram.Wifi.Device.{Talks, wifi_main-Talks}
use linux_device_drivers.UserProgram.Wifi.Esp32Device
use linux_device_drivers.UserProgram.Wifi.Esp32Device.{Refuses, fresh, wifi_main-Refuses}
use linux_device_drivers.Tests.Support.{granting, start}

abbrev grant : Reply
grant = record { code = pos 4; ptr = addr 40; num = 7; bytes = replicate 106 9 }

-- A system that hands the calls on descriptor 5 to a driver.
module _ {G : Type 0} (table : FileOp → Option (K G ℤ)) (k : St Kernel.Call G) where
  abbrev reply : Option FileOp → Log Posix.Call → Reply
  reply none l = grant
  reply (some op) l = record grant {
    code = result_of 5 op (entry_answer table granting k (table op) (driver table granting k l));
    bytes = [];
  }

  abbrev with_device : Env Posix.Call
  with_device l c = reply (operation_of c) l

  reply-Answers :
      (o : Option FileOp) (l : Log Posix.Call) → Answers table granting k 5 o l (reply o l)
  reply-Answers none l = tt
  reply-Answers (some op) l = (refl, refl)

abbrev idle_wifi : St Kernel.Call Wifi.Globals
idle_wifi = start (record { dev = 0 })

wifi_main-Talks_example :
    Returns
      (Talks granting idle_wifi)
      (main (replicate 256 1) (with_device Device.table idle_wifi) (start tt))
wifi_main-Talks_example =
    wifi_main-Talks (replicate 256 1) granting idle_wifi 5 (with_device Device.table idle_wifi)
      (start tt) refl (λ l c _. reply-Answers Device.table idle_wifi (operation_of c) l) refl

abbrev idle_esp32 : St Kernel.Call Esp32.Globals
idle_esp32 = start (record { dev_num = 0; esp32_class = null; esp32_device = null })

wifi_main-Refuses_example :
    Returns
      (Refuses granting idle_esp32)
      (main (replicate 256 1) (with_device Esp32Device.table idle_esp32) fresh)
wifi_main-Refuses_example =
    wifi_main-Refuses (replicate 256 1) granting idle_esp32 5
      (with_device Esp32Device.table idle_esp32)
      (λ l c _. reply-Answers Esp32Device.table idle_esp32 (operation_of c) l)
