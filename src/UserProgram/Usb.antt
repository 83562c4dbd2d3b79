-- ===== src/UserProgram/Usb.antt =====
-- Usb_userSpace_test_v1_1.c: sends a greeting to a USB device and prints the answer.
pub mod Run
use linux_device_drivers.Base.{ℕ, ℤ, pos, List, [], ◌∷◌, is_neg, if◌then◌else◌, overlay, literal}
use linux_device_drivers.Machine.{pure, ◌>>=◌, ◌>>◌, invoke}
use linux_device_drivers.Machine.Buffer.{write_bytes}
use linux_device_drivers.Posix.{P, perror, open_rdwr, close, write, read, print_string}

abbrev pub greeting : List ℕ
greeting = literal "Hello USB device!"

-- `stack` is what the memory of `buf`, 64 bytes, holds at the start.
unfoldable pub main : List ℕ → P ℤ
main stack = do
  usb_fd ← invoke (open_rdwr "/dev/bus/usb/001/002")
  if is_neg usb_fd.code
      then (do invoke (perror "Failed to open USB device file"); pure (pos 1))
      else do
        buf ← write_bytes stack greeting
        sent ← invoke (write usb_fd.code greeting)
        if is_neg sent.code
            then (do
              invoke (perror "Failed to write to USB device")
              invoke (close usb_fd.code)
              pure (pos 1))
            else do
              got ← invoke (read usb_fd.code 64)
              if is_neg got.code
                  then (do
                    invoke (perror "Failed to read from USB device")
                    invoke (close usb_fd.code)
                    pure (pos 1))
                  else do
                    print_string "Received data: %s\n" [] (overlay got.bytes buf)
                    invoke (close usb_fd.code)
                    pure (pos 0)
