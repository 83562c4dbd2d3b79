-- ===== src/UserProgram/Wifi/Run.antt =====
-- How the Wi-Fi program ends, and what it prints.
use linux_device_drivers.Base.{
  ℕ, suc, ℤ, pos, negsuc, ◌≡◌, ◌⊎◌, some, List, arith, length, up_to_zero, c_string-set-overlay,
  length-overlay,
}
use linux_device_drivers.Machine.{St, Env, Log, after}
use linux_device_drivers.Machine.Resources.{Resource, nested}
use linux_device_drivers.Posix.{Call, posix_tracked, print_string, open_rdwr, write, read}
use linux_device_drivers.Posix.Ends.{Leaves, Never}
use linux_device_drivers.Posix.History.{last_read, last_text, failures, reports_failure}
use linux_device_drivers.Posix.Replies.{Reads}
use linux_device_drivers.UserProgram.Wifi.{main, data_to_send}

-- `before` is the number of calls that had failed before the program.
abbrev pub PrintsAnswer : ℕ → ℤ → Log Call → Type 0
PrintsAnswer before z l =
    (z ≡ pos 0)
      × (last_text l ≡ some (up_to_zero (last_read l)))
      × (failures reports_failure l ≡ before)
    ⊎ (z ≡ negsuc 0) × (failures reports_failure l ≡ suc before)

-- If the buffer has 256 bytes and `read` keeps to its documentation: the program returns 0, after
-- printing what it received up to the first zero byte, if opening, writing and reading all succeeded,
-- and -1 if one of them failed. It never writes or
-- reads outside its buffer, whatever this held, and closes the device on every path that opened it.
pub wifi_main-Leaves :
    (stack : List ℕ) (env : Env Call) (s : St Call (Unit {0})) (base : List Resource)
    → length stack ≡ 256
    → Reads env
    → nested s.log ≡ some base
    → Leaves (PrintsAnswer (failures reports_failure s.log)) Never Never base (main stack env s)
unfolding main nested last_read last_text print_string failures
wifi_main-Leaves stack env s base size reads h = ground (
  arith,
  reads written.log fd 255,
  c_string-set-overlay received stack,
  length-overlay received stack,
)
  where
    fd : ℤ
    fd = (env s.log (open_rdwr "/dev/myWi-Fi")).code

    written : St Call (Unit {0})
    written = after env (write fd data_to_send) (after env (open_rdwr "/dev/myWi-Fi") s)

    received : List ℕ
    received = (env written.log (read fd 255)).bytes
