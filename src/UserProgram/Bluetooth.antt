-- ===== src/UserProgram/Bluetooth.antt =====
-- Bluetooth_userSpace.c: looks for Bluetooth devices and prints their addresses.
pub mod Run
use linux_device_drivers.Base.{
  ℕ, zero, suc, ◌+◌, ℤ, pos, negsuc, List, [], ◌∷◌, is_neg, if◌then◌else◌, overlay, pos_part,
}
use linux_device_drivers.Machine.{Ptr, pure, ◌>>=◌, ◌>>◌, invoke}
use linux_device_drivers.Posix.{
  P, perror, printf, socket, close, hci_get_route, hci_inquiry, ba2str, free, print_string,
}

abbrev pub max_devices : ℕ
max_devices = 10

-- The loop over the devices, with the rounds left. `stack` is what the memory of `addr_str`, 18
-- bytes, holds.
unfoldable pub print_devices : List ℕ → Ptr → (i rounds : ℕ) → P (Unit {0})
print_devices stack devices i zero = pure tt
print_devices stack devices i (suc n) = do
  text ← invoke (ba2str devices i)
  print_string "%s\n" [] (overlay text.bytes stack)
  print_devices stack devices (i + 1) n

-- EXIT_SUCCESS is 0 and EXIT_FAILURE 1.
unfoldable pub main : List ℕ → P ℤ
main stack = do
  sock ← invoke (socket "AF_BLUETOOTH, SOCK_RAW, BTPROTO_HCI")
  if is_neg sock.code then (do invoke (perror "Socket creation failed"); pure (pos 1)) else do
    route ← invoke hci_get_route
    found ← invoke (hci_inquiry route.code 8 max_devices)
    if is_neg found.code
        then (do invoke (perror "Device discovery failed"); invoke (close sock.code); pure (pos 1))
        else do
          invoke (printf "Found %d devices:\n" (found.code ∷ []))
          print_devices stack found.ptr 0 (pos_part found.code)
          invoke (free found.ptr)
          invoke (close sock.code)
          pure (pos 0)
