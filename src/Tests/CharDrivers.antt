-- ===== src/Tests/CharDrivers.antt =====
-- The lives of the character drivers.
use linux_device_drivers.Base.{refl, false, true, []}
use linux_device_drivers.Machine.{St, null, Returns}
use linux_device_drivers.Machine.Resources.{nested}
use linux_device_drivers.Kernel.{Call, kernel_tracked}
use linux_device_drivers.Kernel.Lifecycle.{Balance, fresh, insmod, operate, rmmod}
use linux_device_drivers.CharDriver.Esp32
use linux_device_drivers.CharDriver.Esp32.Lifecycle.{esp32-Balance}
use linux_device_drivers.CharDriver.I2c
use linux_device_drivers.CharDriver.I2c.Lifecycle.{
  Ends, nodes_asked, i2c_char_driver_init-LoadedWith,
}
use linux_device_drivers.CharDriver.I2c.Lives
use linux_device_drivers.CharDriver.I2c.Lives.{i2c_module-Holds}
use linux_device_drivers.Tests.Support.{granting, no_node, state_of, start}

abbrev esp32_start : St Call Esp32.Globals
esp32_start = start (record { dev_num = 0; esp32_class = null; esp32_device = null })

abbrev esp32_loaded : St Call Esp32.Globals
esp32_loaded = state_of (Esp32.esp32_init granting esp32_start)

abbrev esp32_removed : St Call Esp32.Globals
esp32_removed = state_of (Esp32.esp32_exit granting esp32_loaded)

-- Loaded and removed.
esp32-Balance_example : Balance Esp32.esp32_driver [] false esp32_removed
unfolding nested Esp32.esp32_init Esp32.esp32_exit
esp32-Balance_example =
    esp32-Balance granting esp32_start [] false esp32_removed refl
      (rmmod (insmod fresh refl refl) refl)

abbrev i2c_start : St Call I2c.Globals
i2c_start = start (record { i2c_client = null; dev_class = null; dev_num = 0 })

abbrev i2c_loaded : St Call I2c.Globals
i2c_loaded = state_of (I2c.i2c_char_driver_init no_node i2c_start)

-- A kernel that refuses the device node.
i2c_char_driver_init-LoadedWith_example :
    Returns (Ends [] 0) (I2c.i2c_char_driver_init no_node i2c_start)
unfolding nested nodes_asked
i2c_char_driver_init-LoadedWith_example = i2c_char_driver_init-LoadedWith no_node i2c_start [] refl

abbrev i2c_used : St Call I2c.Globals
i2c_used = state_of (I2c.i2c_char_driver (I2c.probe null) no_node i2c_loaded)

-- Loaded without its node, and used.
i2c_module-Holds_example : Lives.Holds true i2c_used
unfolding nested I2c.i2c_char_driver_init I2c.i2c_char_driver
i2c_module-Holds_example =
    i2c_module-Holds no_node i2c_start true i2c_used refl
      (operate (I2c.probe null) (insmod fresh refl refl) refl)
