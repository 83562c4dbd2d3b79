-- ===== src/CharDriver/Together.antt =====
-- What the character drivers take and give back in a kernel where other modules hold things too.
use linux_device_drivers.Base.{◌∷◌, arith}
use linux_device_drivers.Machine.{Env}
use linux_device_drivers.Machine.Resources.{resource, cdev_added, region, dev_class, device, held}
use linux_device_drivers.Kernel.{Call, kernel_tracked, id_of}
use linux_device_drivers.Kernel.Together.{IsFramed, nothing_left}
use linux_device_drivers.Kernel.Together.Exit.{give_back, give_back_two, erase_if_held_lem}
use linux_device_drivers.CharDriver.Can.{can_driver, can_init, can_exit, can_fops}
use linux_device_drivers.CharDriver.Wifi.{wifi_driver, wifi_init, wifi_exit, wifi_fops}
use linux_device_drivers.CharDriver.Bluetooth.{
  bluetooth_driver, bluetooth_init, bluetooth_exit, bluetooth_fops,
}
use linux_device_drivers.CharDriver.Esp32.{esp32_driver, esp32_init, esp32_exit, esp32_fops}

pub can-IsFramed : (env : Env Call) → IsFramed can_driver nothing_left env
unfolding can_init can_exit can_fops held
can-IsFramed env = record {
  init_adds = λ s things h. ground arith;
  exit_removes = λ s things rest h alike.
      let (ys, given, left) =
        give_back_two (resource cdev_added 0) (resource region s.globals.dev) things rest alike in
      (ys, ground arith, left);
  operation_keeps = λ op s things h. ground arith;
}

pub wifi-IsFramed : (env : Env Call) → IsFramed wifi_driver nothing_left env
unfolding wifi_init wifi_exit wifi_fops held
wifi-IsFramed env = record {
  init_adds = λ s things h. ground arith;
  exit_removes = λ s things rest h alike.
      let (ys, given, left) =
        give_back_two (resource cdev_added 0) (resource region s.globals.dev) things rest alike in
      (ys, ground arith, left);
  operation_keeps = λ op s things h. ground arith;
}

pub bluetooth-IsFramed : (env : Env Call) → IsFramed bluetooth_driver nothing_left env
unfolding bluetooth_init bluetooth_exit bluetooth_fops held
bluetooth-IsFramed env = record {
  init_adds = λ s things h. ground arith;
  exit_removes = λ s things rest h alike.
      let (ys, given, left) =
        give_back_two (resource cdev_added 0) (resource region s.globals.dev) things rest alike in
      (ys, ground arith, left);
  operation_keeps = λ op s things h. ground arith;
}

pub esp32-IsFramed : (env : Env Call) → IsFramed esp32_driver nothing_left env
unfolding esp32_init esp32_exit esp32_fops held
esp32-IsFramed env = record {
  init_adds = λ s things h. ground arith;
  exit_removes = λ s things rest h alike.
      let g = s.globals in
      let added = resource cdev_added 0 in
      let node = resource device g.dev_num in
      let class = resource dev_class (id_of g.esp32_class) in
      let number = resource region g.dev_num in
      let (xs, one, left) = give_back added things (node ∷ class ∷ number ∷ rest) alike in
      let (ys, two, left2) = give_back node xs (class ∷ number ∷ rest) left in
      let (zs, three, left3) = give_back class ys (number ∷ rest) left2 in
      let (ws, four, left4) = give_back number zs rest left3 in
      let removed = erase_if_held_lem node xs ys two in (ws, ground arith, left4);
  operation_keeps = λ op s things h. ground arith;
}
