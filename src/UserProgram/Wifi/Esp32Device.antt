-- ===== src/UserProgram/Wifi/Esp32Device.antt =====
-- Wi-fi_userSpace.c run on the device of MyWi-fiDriver.c, whose table has no `read` and no `write`.
use linux_device_drivers.Base.{
  refl, ℕ, ℤ, negsuc, pos, ◌≡◌, Option, none, some, List, [], ◌∷◌, arith,
}
use linux_device_drivers.Machine.{St, Env, Returns, after}
use linux_device_drivers.Machine.Resources.{nested}
use linux_device_drivers.Kernel
use linux_device_drivers.Kernel.{
  K, FileOp, open_file, release_file, read_file, write_file, kernel_tracked,
}
use linux_device_drivers.CharDriver.Esp32
use linux_device_drivers.CharDriver.Esp32.{Globals, esp32_fops}
use linux_device_drivers.Posix
use linux_device_drivers.Posix.{open_rdwr, write, posix_tracked}
use linux_device_drivers.Posix.History.{last_text}
use linux_device_drivers.UserProgram.Wifi.{main, data_to_send}
use linux_device_drivers.UserProgram.Wifi.Attached.{IsServed, driver, messages}

abbrev pub table : FileOp → Option (K Globals ℤ)
table open_file = some (esp32_fops Esp32.open_file)
table release_file = some (esp32_fops Esp32.release_file)
table (read_file _) = none
table (write_file _) = none

-- What a run of the program leaves: a failure, no text, and the device opened and closed once.
abbrev pub Refuses :
    Env Kernel.Call → St Kernel.Call Globals → ℤ → St Posix.Call (Unit {0}) → Type 0
Refuses kernel k z t =
    let d = driver table kernel k t.log in
    (z ≡ negsuc 0)
    × (last_text t.log ≡ none)
    × (nested t.log ≡ some [])
    × (messages d.log
        ≡ "Closed /dev/my-Wi-Fi device\n" ∷ "Opened /dev/myWi-Fi device\n" ∷ messages k.log)
    × (nested d.log ≡ nested k.log)
    × (d.globals ≡ k.globals)

abbrev pub fresh : St Posix.Call (Unit {0})
fresh = record { globals = tt; log = [] }

-- If /dev/myWi-Fi is a node of the ESP32 driver, as in the comment of MyWi-fiDriver.c, the program
-- always returns -1, however the kernel answers: the driver has no `write`, so that the first thing
-- the program sends fails. It prints no answer and has opened and closed the device once.
pub wifi_main-Refuses :
    (stack : List ℕ) (kernel : Env Kernel.Call) (k : St Kernel.Call Globals) (fd : ℕ)
    (system : Env Posix.Call)
    → IsServed table kernel k "/dev/myWi-Fi" fd system
    → Returns (Refuses kernel k) (main stack system fresh)
unfolding main esp32_fops driver messages last_text nested
wifi_main-Refuses stack kernel k fd system served = ground (
  arith,
  served [] (open_rdwr "/dev/myWi-Fi") refl,
  served (after system (open_rdwr "/dev/myWi-Fi") fresh).log (write (pos fd) data_to_send) tt,
)
