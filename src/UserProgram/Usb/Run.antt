-- ===== src/UserProgram/Usb/Run.antt =====
-- How the USB program ends.
use linux_device_drivers.Base.{ℕ, ℤ, pos, ◌≡◌, ◌⊎◌, List, some, arith, length, overlay, c_string}
use linux_device_drivers.Machine.{St, Env, Log}
use linux_device_drivers.Machine.Resources.{Resource, nested}
use linux_device_drivers.Posix.{Call, posix_tracked, print_string}
use linux_device_drivers.Posix.Ends.{Leaves, Never, Overruns}
use linux_device_drivers.Posix.History.{last_read, last_text}
use linux_device_drivers.UserProgram.Usb.{main, greeting}

-- What the buffer holds when it is printed: what was read, over the greeting, over what was there.
abbrev pub printed_buffer : List ℕ → Log Call → List ℕ
printed_buffer stack l = overlay (last_read l) (overlay greeting stack)

abbrev pub PrintsBuffer : List ℕ → ℤ → Log Call → Type 0
PrintsBuffer stack z l =
    (z ≡ pos 0) × (last_text l ≡ c_string (printed_buffer stack l)) ⊎ (z ≡ pos 1)

-- The greeting fits the buffer of 64 bytes. The program returns 0 or 1 and has closed the device if
-- it had it; or it faults, and then the buffer that it prints as a text has no zero byte. A return
-- of 0 follows the printing of the text of that buffer.
pub usb_main-Leaves :
    (stack : List ℕ) (env : Env Call) (s : St Call (Unit {0})) (base : List Resource)
    → length stack ≡ 64
    → nested s.log ≡ some base
    → Leaves (PrintsBuffer stack) Never (Overruns (printed_buffer stack)) base (main stack env s)
unfolding main nested last_read last_text print_string
usb_main-Leaves stack env s base size h = ground arith
