-- ===== src/UserProgram/Wifi/Device.antt =====
-- Wi-fi_userSpace.c run on the device of Wi-fi_device_driver.c. The program opens /dev/myWi-Fi, but the
-- comment in Wi-fi_device_driver.c makes the node of its device under another name,
-- /dev/mywifidevice, and that in MyWi-fiDriver.c gives /dev/myWi-Fi to the ESP32 driver. Here it is
-- supposed that /dev/myWi-Fi has been made a node of the first.
use linux_device_drivers.Base.{
  refl, ℕ, ℤ, pos, ◌≡◌, Option, some, c_string, List, [], ◌∷◌, arith, length,
}
use linux_device_drivers.Machine.{St, Env, Returns, after}
use linux_device_drivers.Machine.Resources.{nested}
use linux_device_drivers.Kernel
use linux_device_drivers.Kernel.{K, FileOp, kernel_tracked}
use linux_device_drivers.Kernel.History.{last_copy}
use linux_device_drivers.CharDriver.Wifi.{Globals, wifi_fops}
use linux_device_drivers.Posix
use linux_device_drivers.Posix.{open_rdwr, read, write, close, print_string, posix_tracked}
use linux_device_drivers.Posix.History.{last_text}
use linux_device_drivers.UserProgram.Wifi.Attached.{IsServed, driver, messages}
use linux_device_drivers.UserProgram.Wifi.{main, data_to_send}

-- The driver's table has every entry.
abbrev pub table : FileOp → Option (K Globals ℤ)
table op = some (wifi_fops op)

-- What a run of the program leaves: an empty text printed, the device opened and closed once by the
-- driver's account, nothing copied to the user, and nothing more held by the driver.
abbrev pub Talks : Env Kernel.Call → St Kernel.Call Globals → ℤ → St Posix.Call (Unit {0}) → Type 0
Talks kernel k z t =
    let d = driver table kernel k t.log in
    (z ≡ pos 0)
    × (last_text t.log ≡ some [])
    × (messages d.log ≡ "Wi-Fi device closed\n" ∷ "Wi-Fi device opened\n" ∷ messages k.log)
    × (last_copy d.log ≡ last_copy k.log)
    × (nested d.log ≡ nested k.log)
    × (d.globals ≡ k.globals)

-- If /dev/myWi-Fi, the file that the program opens, is a node of the driver of
-- Wi-fi_device_driver.c, against that file's comment, which names it /dev/mywifidevice: the program
-- always returns 0, however the kernel answers, and whatever its buffer of 256 bytes held: it
-- prints an empty text, since the driver's `read` returns 0 and copies nothing. The driver has
-- opened and closed the device once, and holds what it held.
pub wifi_main-Talks :
    (stack : List ℕ) (kernel : Env Kernel.Call) (k : St Kernel.Call Globals) (fd : ℕ)
    (system : Env Posix.Call) (s : St Posix.Call (Unit {0}))
    → length stack ≡ 256
    → IsServed table kernel k "/dev/myWi-Fi" fd system
    → s.log ≡ []
    → Returns (Talks kernel k) (main stack system s)
unfolding main wifi_fops driver messages last_text last_copy nested print_string c_string
wifi_main-Talks [] kernel k fd system s size served new = absurd (omega arith)
wifi_main-Talks (b ∷ bs) kernel k fd system s size served new = ground (
  arith,
  served s.log (open_rdwr "/dev/myWi-Fi") refl,
  served opened.log (write (pos fd) data_to_send) tt,
  served sent.log (read (pos fd) 255) tt,
)
  where
    opened : St Posix.Call (Unit {0})
    opened = after system (open_rdwr "/dev/myWi-Fi") s

    sent : St Posix.Call (Unit {0})
    sent = after system (write (pos fd) data_to_send) opened
