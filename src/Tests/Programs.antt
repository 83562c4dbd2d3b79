-- ===== src/Tests/Programs.antt =====
-- The user programs at concrete answers.
use linux_device_drivers.Base.{
  ℕ, ◌≡◌, zero, suc, pos, refl, [], ◌∷◌, arith, replicate, literal, NoZero, c_string,
}
use linux_device_drivers.Machine.{Reply, Env, St, ok, after, addr, Faults, out_of_bounds}
use linux_device_drivers.Machine.Resources.{nested}
use linux_device_drivers.Posix.{Call, read, printf, ba2str, posix_tracked}
use linux_device_drivers.Posix.Ends.{Leaves, Never, Overruns}
use linux_device_drivers.UserProgram.Bluetooth
use linux_device_drivers.Posix.History.{failures}
use linux_device_drivers.UserProgram.Bluetooth.Run.{PrintsAddresses, texts, bluetooth_main-Leaves}
use linux_device_drivers.UserProgram.Can
use linux_device_drivers.UserProgram.Can.Run.{received_data, PrintsFrame, can_main-Leaves}
use linux_device_drivers.UserProgram.Hello
use linux_device_drivers.UserProgram.I2c
use linux_device_drivers.UserProgram.I2c.Run.{PrintsBytes, Fails, i2c_main-Leaves}
use linux_device_drivers.UserProgram.Spi
use linux_device_drivers.UserProgram.Spi.Run
use linux_device_drivers.UserProgram.Spi.Run.{spi_main-Ends}
use linux_device_drivers.UserProgram.Uart
use linux_device_drivers.UserProgram.Uart.Run.{
  line_buffer, PrintsLine, uart_main-Leaves, uart_main-out_of_bounds,
}
use linux_device_drivers.UserProgram.Usb
use linux_device_drivers.UserProgram.Usb.Run.{printed_buffer, PrintsBuffer, usb_main-Leaves}
use linux_device_drivers.UserProgram.Wifi
use linux_device_drivers.UserProgram.Wifi.Run.{PrintsAnswer, wifi_main-Leaves}
use linux_device_drivers.Posix.Replies.{Reads}
use linux_device_drivers.Tests.Support.{start}

-- Every call succeeds with descriptor or count 4; a read gives four bytes if it is asked for so many.
abbrev done : Reply
done = record { code = pos 4; ptr = addr 40; num = 7; bytes = 79 ∷ 75 ∷ 13 ∷ 10 ∷ [] }

abbrev at_end : Reply
at_end = record done { code = pos 0; bytes = [] }

abbrev short_read : ℕ → Reply
short_read (suc (suc (suc (suc _)))) = done
short_read _ = at_end

abbrev address_text : Reply
address_text = record done { bytes = literal "00:11:22:33:44:55" }

abbrev answer : Call → Reply
answer (read _ n) = short_read n
answer (ba2str _ _) = address_text
answer _ = done

abbrev device : Env Call
device l c = answer c

-- The same, but a read fills 256 bytes, none of them zero.
abbrev full : Reply
full = record done { code = pos 256; bytes = replicate 256 65 }

abbrev full_answer : Call → Reply
full_answer (read _ _) = full
full_answer _ = done

abbrev chatty : Env Call
chatty l c = full_answer c

abbrev at_start : St Call (Unit {0})
at_start = start tt

device-Reads : Reads device
device-Reads l fd zero = ground arith
device-Reads l fd (suc zero) = ground arith
device-Reads l fd (suc (suc zero)) = ground arith
device-Reads l fd (suc (suc (suc zero))) = ground arith
device-Reads l fd (suc (suc (suc (suc n)))) = ground arith

replicate-NoZero : (n : ℕ) → NoZero (replicate n 65)
replicate-NoZero zero = tt
replicate-NoZero (suc n) = (omega arith, replicate-NoZero n)

wifi_main-Leaves_example :
    Leaves (PrintsAnswer 0) Never Never [] (Wifi.main (replicate 256 1) device at_start)
unfolding nested failures
wifi_main-Leaves_example =
    wifi_main-Leaves (replicate 256 1) device at_start [] refl device-Reads refl

i2c_main-Leaves_example : Leaves PrintsBytes Fails Never [] (I2c.main device at_start)
unfolding nested
i2c_main-Leaves_example = i2c_main-Leaves device at_start [] refl

uart_main-Leaves_example :
    Leaves
      (PrintsLine (replicate 256 0))
      Never
      (Overruns (line_buffer (replicate 256 0)))
      []
      (Uart.main (replicate 256 0) device at_start)
unfolding nested
uart_main-Leaves_example = uart_main-Leaves (replicate 256 0) device at_start [] refl

-- A line that fills the buffer makes the program read beyond it.
chatty_line_overruns : Faults out_of_bounds (Uart.main (replicate 256 0) chatty at_start)
chatty_line_overruns =
    uart_main-out_of_bounds (replicate 256 0) chatty at_start refl (λ l path. refl) (λ l fd. refl)
      (λ l fd. refl) (λ l fd. replicate-NoZero 256)

usb_main-Leaves_example :
    Leaves
      (PrintsBuffer (replicate 64 1))
      Never
      (Overruns (printed_buffer (replicate 64 1)))
      []
      (Usb.main (replicate 64 1) device at_start)
unfolding nested
usb_main-Leaves_example = usb_main-Leaves (replicate 64 1) device at_start [] refl refl

abbrev frame_memory : Can.Stack
frame_memory = record { pad = 1; res0 = 2; len8_dlc = 3; last = 4 }

can_main-Leaves_example :
    Leaves
      (PrintsFrame frame_memory 0)
      Never
      (Overruns (received_data frame_memory))
      []
      (Can.main frame_memory device at_start)
unfolding nested failures
can_main-Leaves_example = can_main-Leaves frame_memory device at_start [] refl

bluetooth_main-Leaves_example :
    Leaves (PrintsAddresses 0 0) Never Never [] (Bluetooth.main (replicate 18 1) device at_start)
unfolding nested texts c_string failures
bluetooth_main-Leaves_example =
    bluetooth_main-Leaves (replicate 18 1) device at_start [] (λ l d i. ground arith) refl

spi_main-Ends_example : Run.Ends (replicate 3 1) [] [] (Spi.main (replicate 3 1) device at_start)
unfolding nested Run.printed
spi_main-Ends_example = spi_main-Ends (replicate 3 1) device at_start [] refl

-- The greeting is the one line printed.
hello_prints :
    Hello.main device at_start ≡ ok (pos 0) (after device (printf "hello test\n" []) at_start)
unfolding Hello.main
hello_prints = refl
