-- ===== src/Tests/Registers.antt =====
-- The ioctl device and the SPI character device at concrete answers.
use linux_device_drivers.Base.{ℕ, negsuc, ◌+◌, ◌*◌, ◌≡◌, refl, some, [], ◌∷◌, List, arith, true}
use linux_device_drivers.Machine.{St, null, Env, Returns, ◌>>◌}
use linux_device_drivers.Machine.Resources.{nested, held}
use linux_device_drivers.Kernel.{Call, kernel_tracked}
use linux_device_drivers.CharDriver.Ioctl
use linux_device_drivers.CharDriver.Ioctl.{
  Operation, ioctl, open_file, read_file, etx_ioctl, wr_value, rd_value,
}
use linux_device_drivers.CharDriver.Ioctl.Lifecycle.{Ends, etx_driver_init-Ends}
use linux_device_drivers.CharDriver.Ioctl.Register.{
  IsRegister, register, Serves, run, Sent, run-IsRegister, etx_ioctl-write_read,
}
use linux_device_drivers.CharDriver.Ioctl.Values.{last_number, set_and_get, set_and_get-Sent}
use linux_device_drivers.CharDriver.SpiChar
use linux_device_drivers.CharDriver.SpiChar.{efault, at_most, data_size}
use linux_device_drivers.CharDriver.SpiChar.Lifecycle
use linux_device_drivers.CharDriver.SpiChar.Lifecycle.{spi_char_init-Ends}
use linux_device_drivers.CharDriver.Ioctl.Lives.{left_over, failures, etx_driver-Holds}
use linux_device_drivers.CharDriver.SpiChar.Lives
use linux_device_drivers.CharDriver.SpiChar.Lives.{spi_char_module-Holds}
use linux_device_drivers.Kernel.Lifecycle.{fresh, insmod, insmod_fails, operate}
use linux_device_drivers.Tests.Support.{success, granting, no_node, no_spi, state_of, start}

abbrev fresh_device : St Call Ioctl.Globals
fresh_device = start (record { value = 0 ∷ 0 ∷ 0 ∷ 0 ∷ []; dev = 0; dev_class = null })

-- A kernel that refuses the device node: the character device is left behind.
etx_driver_init-Ends_example : Returns (Ends []) (Ioctl.etx_driver_init no_node fresh_device)
unfolding held
etx_driver_init-Ends_example = etx_driver_init-Ends no_node fresh_device [] refl

abbrev failed_once : St Call Ioctl.Globals
failed_once = state_of (Ioctl.etx_driver_init no_node fresh_device)

abbrev failed_twice : St Call Ioctl.Globals
failed_twice = state_of (Ioctl.etx_driver_init no_node failed_once)

-- Stand-ins for the kernel's macros.
abbrev iow : ℕ → ℕ → ℕ → ℕ
iow t n size = 1000000 + t * 256 + n

abbrev ior : ℕ → ℕ → ℕ → ℕ
ior t n size = 2000000 + t * 256 + n

-- Two loads that fail for want of a device node.
etx_driver-Holds_example : held failed_twice.log ≡ some (left_over failed_twice.log)
unfolding held failures Ioctl.etx_driver_init Ioctl.add_cdev Ioctl.create_class
etx_driver-Holds_example =
    etx_driver-Holds iow ior no_node fresh_device refl
      (insmod_fails (insmod_fails fresh refl refl) refl refl)

-- A user who always sends the bytes 1, 2, 3, 4.
abbrev sender : Env Call
sender l c = record success { bytes = 1 ∷ 2 ∷ 3 ∷ 4 ∷ [] }

abbrev session : List Operation
session =
    ioctl (rd_value iow ior) 500
    ∷ ioctl (wr_value iow ior) 600
    ∷ read_file 3
    ∷ ioctl 7 0
    ∷ ioctl (rd_value iow ior) 700
    ∷ []

run-IsRegister_example :
    Returns (λ _. IsRegister (0 ∷ 0 ∷ 0 ∷ 0 ∷ [])) (run iow ior session sender fresh_device)
unfolding register Serves
run-IsRegister_example =
    run-IsRegister iow ior session (0 ∷ 0 ∷ 0 ∷ 0 ∷ []) sender fresh_device
      (record { current = refl; served = tt })

bytes_come_back :
    Returns
      (λ _. Sent 700 (1 ∷ 2 ∷ 3 ∷ 4 ∷ []))
      ((etx_ioctl iow ior (wr_value iow ior) 600 >> etx_ioctl iow ior (rd_value iow ior) 700) sender
        fresh_device)
bytes_come_back = etx_ioctl-write_read iow ior 600 700 sender fresh_device (omega arith) refl refl

-- A user who sends the number -2.
abbrev minus_two : Env Call
minus_two l c = record success { bytes = 254 ∷ 255 ∷ 255 ∷ 255 ∷ [] }

set_and_get-Sent_example :
    Returns
      (λ _ u. Sent 700 (254 ∷ 255 ∷ 255 ∷ 255 ∷ []) u × (last_number u.log ≡ some (negsuc 1)))
      (set_and_get iow ior 600 700
        (open_file ∷ ioctl 5 0 ∷ read_file 9 ∷ [])
        minus_two
        fresh_device)
set_and_get-Sent_example =
    set_and_get-Sent iow ior 600 700 (open_file ∷ ioctl 5 0 ∷ read_file 9 ∷ []) (negsuc 1) minus_two
      fresh_device refl (tt, (refl, (tt, tt))) (omega arith) refl refl

abbrev unbound : St Call SpiChar.Globals
unbound = start (record { dev_num = 0; my_cdev = null; my_spi_dev = null })

-- A machine without the SPI device: the fault.
spi_char_init-Ends_example : Lifecycle.Ends [] 0 (SpiChar.spi_char_init no_spi unbound)
unfolding nested Lifecycle.missed
spi_char_init-Ends_example = spi_char_init-Ends no_spi unbound [] refl (λ l. refl) refl

abbrev bound : St Call SpiChar.Globals
bound = state_of (SpiChar.spi_char_init granting unbound)

abbrev read : St Call SpiChar.Globals
read = state_of (SpiChar.spi_char_read 5000 20 granting bound)

abbrev granting-IsSound : Lives.IsSound granting
granting-IsSound = record {
  alloc = λ l. refl;
  transfers = λ l. refl;
  fills = λ l. omega arith;
  finds = λ l. refl;
}

-- Loaded, and read from once.
spi_char_module-Holds_example : Lives.Holds [] true read
unfolding nested SpiChar.spi_char_init SpiChar.spi_char_read
spi_char_module-Holds_example =
    spi_char_module-Holds granting unbound [] true read granting-IsSound refl
      (operate (record { user_buf = 5000; count = 20 }) (insmod fresh refl refl) refl)
