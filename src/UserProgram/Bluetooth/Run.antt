-- ===== src/UserProgram/Bluetooth/Run.antt =====
-- How the Bluetooth program ends, and how many addresses it prints.
use linux_device_drivers.Base.{
  ℕ, zero, suc, ◌+◌, ℤ, pos, ◌≡◌, ◌≢◌, ◌⊎◌, none, some, List, [], ◌∷◌, arith, overlay, c_string,
  pos_part, Option-cases, inl, inr, ◌++◌,
}
use linux_device_drivers.Machine.{St, Env, Log, Reply, Ptr, Returns, after}
use linux_device_drivers.Machine.Resources.{Resource, resource, memory, nested}
use linux_device_drivers.Posix.{
  Call, posix_tracked, id_of, descriptor_of, print_string, printf_text, printf, hci_inquiry, ba2str,
  socket, hci_get_route,
}
use linux_device_drivers.Posix.Ends.{Leaves, Never}
use linux_device_drivers.Posix.History.{failures, reports_failure}
use linux_device_drivers.UserProgram.Bluetooth.{main, print_devices, max_devices}

-- How many texts were printed, and what the newest search has found.
abbrev pub counted : Call → ℕ → ℕ
counted (printf_text _ _ _) n = suc n
counted _ n = n

unfoldable pub texts : Log Call → ℕ
texts [] = 0
texts (e ∷ l) = counted e.call (texts l)

abbrev pub number : Call → Reply → ℕ → ℕ
number (hci_inquiry _ _ _) r older = pos_part r.code
number _ r older = older

unfoldable pub found_devices : Log Call → ℕ
found_devices [] = 0
found_devices (e ∷ l) = number e.call e.reply (found_devices l)

-- `ba2str` writes a text that ends in the 18 bytes of its buffer.
abbrev pub WritesText : List ℕ → Env Call → Type 0
WritesText stack env =
    (l : Log Call) (d : Ptr) (i : ℕ) → c_string (overlay (env l (ba2str d i)).bytes stack) ≢ none

print_devices-texts :
    (stack : List ℕ) (devices : Ptr) (i n : ℕ) (env : Env Call) (s : St Call (Unit {0}))
    (held : List Resource)
    → WritesText stack env
    → nested s.log ≡ some held
    → Returns
        (λ _ t.
          (nested t.log ≡ some held)
          × (texts t.log ≡ texts s.log + n)
          × (found_devices t.log ≡ found_devices s.log)
          × (failures reports_failure t.log ≡ failures reports_failure s.log))
        (print_devices stack devices i n env s)
unfolding print_devices nested texts found_devices print_string failures
print_devices-texts stack devices i zero env s held w h = ground arith
print_devices-texts stack devices i (suc n) env s held w h =
    let written = after env (ba2str devices i) s in
    elim (Option-cases (c_string (overlay (env s.log (ba2str devices i)).bytes stack))) [
      | inl bad ↦ absurd (w s.log devices i bad)
      | inr (text, e) ↦
          let t = after env (printf_text "%s\n" [] text) written in
          ground (arith, print_devices-texts stack devices (i + 1) n env t held w)
    ]

-- `before` and `failed` are the numbers of texts printed and of calls failed before the program.
abbrev pub PrintsAddresses : (before failed : ℕ) → ℤ → Log Call → Type 0
PrintsAddresses before failed z l =
    (z ≡ pos 0) × (texts l ≡ before + found_devices l) × (failures reports_failure l ≡ failed)
    ⊎ (z ≡ pos 1) × (failures reports_failure l ≡ suc failed)

-- If `ba2str` writes a text that ends in the buffer: the program returns 0, after printing
-- as many addresses as devices were found, if it had its socket and the search succeeded, and 1 if one
-- of the two failed. On every path it has freed the list
-- of devices and closed the socket if it had them.
pub bluetooth_main-Leaves :
    (stack : List ℕ) (env : Env Call) (s : St Call (Unit {0})) (base : List Resource)
    → WritesText stack env
    → nested s.log ≡ some base
    → Leaves
        (PrintsAddresses (texts s.log) (failures reports_failure s.log))
        Never
        Never
        base
        (main stack env s)
unfolding main nested texts found_devices failures
bluetooth_main-Leaves stack env s base w h = ground (
  arith,
  print_devices-texts stack found.ptr 0 (pos_part found.code) env announced
      (resource memory (id_of found.ptr) ∷ (descriptor_of sock ++ base)) w,
)
  where
    sock : ℤ
    sock = (env s.log (socket "AF_BLUETOOTH, SOCK_RAW, BTPROTO_HCI")).code

    opened : St Call (Unit {0})
    opened = after env (socket "AF_BLUETOOTH, SOCK_RAW, BTPROTO_HCI") s

    route : ℤ
    route = (env opened.log hci_get_route).code

    routed : St Call (Unit {0})
    routed = after env hci_get_route opened

    found : Reply
    found = env routed.log (hci_inquiry route 8 max_devices)

    announced : St Call (Unit {0})
    announced =
        after env (printf "Found %d devices:\n" (found.code ∷ []))
          (after env (hci_inquiry route 8 max_devices) routed)
