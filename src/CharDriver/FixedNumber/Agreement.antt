-- ===== src/CharDriver/FixedNumber/Agreement.antt =====
-- The drivers of MyCanDriver.c, Wi-fi_device_driver.c and MyBlutooth_Device_Driver.c compared.
use linux_device_drivers.Base.{ℕ, List, arith}
use linux_device_drivers.Machine.{St, Env}
use linux_device_drivers.Kernel.{Call}
use linux_device_drivers.CharDriver.Can
use linux_device_drivers.CharDriver.Can.{can_driver, can_init, can_exit, can_fops}
use linux_device_drivers.CharDriver.Wifi
use linux_device_drivers.CharDriver.Wifi.{wifi_driver, wifi_init, wifi_exit, wifi_fops}
use linux_device_drivers.CharDriver.Bluetooth
use linux_device_drivers.CharDriver.Bluetooth.{
  bluetooth_driver, bluetooth_init, bluetooth_exit, bluetooth_fops,
}
use linux_device_drivers.CharDriver.FixedNumber.{
  Step, load, unload, operate, answers, blind, Same, EndSame, Agree, answers-EndSame,
}

abbrev pub can_dev : Can.Globals → ℕ
can_dev g = g.dev

abbrev pub wifi_dev : Wifi.Globals → ℕ
wifi_dev g = g.dev

abbrev pub bluetooth_dev : Bluetooth.Globals → ℕ
bluetooth_dev g = g.dev

module _ (number : ℕ → ℕ → ℕ) where
  wifi-Agree : Agree number Can.major_num Wifi.major_num can_dev wifi_dev can_driver wifi_driver
  unfolding can_init can_exit can_fops wifi_init wifi_exit wifi_fops
  wifi-Agree load env s t h = ground arith
  wifi-Agree unload env s t h = ground arith
  wifi-Agree (operate op) env s t h = ground arith

  bluetooth-Agree :
      Agree number Can.major_num Bluetooth.major_num can_dev bluetooth_dev can_driver
        bluetooth_driver
  unfolding can_init can_exit can_fops bluetooth_init bluetooth_exit bluetooth_fops
  bluetooth-Agree load env s t h = ground arith
  bluetooth-Agree unload env s t h = ground arith
  bluetooth-Agree (operate op) env s t h = ground arith

  -- The states of two drivers after the same calls and answers.
  abbrev pub SameWifi : St Call Can.Globals → St Call Wifi.Globals → Type 0
  SameWifi = Same number Can.major_num Wifi.major_num can_dev wifi_dev

  abbrev pub SameBluetooth : St Call Can.Globals → St Call Bluetooth.Globals → Type 0
  SameBluetooth = Same number Can.major_num Bluetooth.major_num can_dev bluetooth_dev

  -- The CAN, the Wi-Fi and the Bluetooth driver are the same program up to names, texts and device
  -- numbers: let MKDEV make any numbers of the major numbers, and let the kernel's other answers not
  -- depend on names, texts and device numbers. Then any sequence of loading, operating and removing
  -- returns the same numbers from each of them and makes the same calls in the same order, and each ends
  -- with the device number of its own major number, or none was loaded.
  pub fixed_drivers-EndSame :
      (xs : List Step) (env : Env Call) (s : St Call Can.Globals) (t : St Call Wifi.Globals)
      (u : St Call Bluetooth.Globals)
      → SameWifi s t
      → SameBluetooth s u
      → let can = answers can_driver xs (blind number env) s in
        EndSame number Can.major_num Wifi.major_num can_dev wifi_dev can
          (answers wifi_driver xs (blind number env) t)
        × EndSame number Can.major_num Bluetooth.major_num can_dev bluetooth_dev can
            (answers bluetooth_driver xs (blind number env) u)
  fixed_drivers-EndSame xs env s t u h k = (
    answers-EndSame number Can.major_num Wifi.major_num can_dev wifi_dev can_driver wifi_driver
        wifi-Agree xs env s t h,
    answers-EndSame number Can.major_num Bluetooth.major_num can_dev bluetooth_dev can_driver
        bluetooth_driver bluetooth-Agree xs env s u k,
  )
