-- ===== src/UserProgram/Wifi.antt =====
-- Wi-fi_userSpace.c: sends "AT" to the Wi-Fi device and prints the answer.
pub mod Run
pub mod Attached
pub mod Device
pub mod Esp32Device
use linux_device_drivers.Base.{
  ℕ, ◌-◌, ℤ, pos, negsuc, List, [], ◌∷◌, is_neg, if◌then◌else◌, overlay,
}
use linux_device_drivers.Machine.{pure, ◌>>=◌, ◌>>◌, invoke, crash, out_of_bounds}
use linux_device_drivers.Machine.Buffer.{write_byte}
use linux_device_drivers.Posix.{P, perror, open_rdwr, close, write, read, print_string}

-- "AT\r\n"
abbrev pub data_to_send : List ℕ
data_to_send = 0x41 ∷ 0x54 ∷ 0x0d ∷ 0x0a ∷ []

-- `sizeof(buffer)`
abbrev pub sizeof_buffer : ℕ
sizeof_buffer = 256

-- `buffer[num_bytes] = 0`
abbrev pub terminate : List ℕ → ℤ → P (List ℕ)
terminate buffer (pos n) = write_byte buffer n 0
terminate buffer (negsuc _) = crash out_of_bounds

-- `stack` is what the memory of `buffer` holds at the start.
unfoldable pub main : List ℕ → P ℤ
main stack = do
  fd ← invoke (open_rdwr "/dev/myWi-Fi")
  if is_neg fd.code then (do invoke (perror "Failed to open device file"); pure (negsuc 0)) else do
    sent ← invoke (write fd.code data_to_send)
    if is_neg sent.code
        then (do
          invoke (perror "Failed to write to device")
          invoke (close fd.code)
          pure (negsuc 0))
        else do
          num_bytes ← invoke (read fd.code (sizeof_buffer - 1))
          if is_neg num_bytes.code
              then (do
                invoke (perror "Failed to read from device")
                invoke (close fd.code)
                pure (negsuc 0))
              else do
                buffer ← terminate (overlay num_bytes.bytes stack) num_bytes.code
                print_string "Received from device: %s\n" [] buffer
                invoke (close fd.code)
                pure (pos 0)
