-- ===== src/UserProgram/Uart/Run.antt =====
-- How the UART program ends, and the answers that make it read beyond its buffer.
use linux_device_drivers.Base.{
  ℕ, ℤ, pos, String, ◌≡◌, ◌⊎◌, false, some, List, arith, length, overlay, c_string, overlay_full,
  NoZero, c_string_of_NoZero, is_neg,
}
use linux_device_drivers.Machine.{St, Env, Log, after, out_of_bounds, Faults}
use linux_device_drivers.Machine.Resources.{Resource, nested}
use linux_device_drivers.Posix.{
  Call, posix_tracked, print_string, open_rdwr, read, tcgetattr, cfsetospeed_9600, tcsetattr_now,
}
use linux_device_drivers.Posix.Ends.{Leaves, Never, Overruns}
use linux_device_drivers.Posix.History.{last_read, last_text}
use linux_device_drivers.UserProgram.Uart.{main}

-- The buffer after a read.
abbrev pub line_buffer : List ℕ → Log Call → List ℕ
line_buffer stack l = overlay (last_read l) stack

abbrev pub PrintsLine : List ℕ → ℤ → Log Call → Type 0
PrintsLine stack z l = (z ≡ pos 0) × (last_text l ≡ c_string (line_buffer stack l)) ⊎ (z ≡ pos 1)

-- The program returns 0 or 1 and has closed the line if it had it; or it faults, and then the
-- buffer that it prints as a text, what was read over what was there before, has no zero byte. A
-- return of 0 follows the printing of the text of that buffer.
pub uart_main-Leaves :
    (stack : List ℕ) (env : Env Call) (s : St Call (Unit {0})) (base : List Resource)
    → nested s.log ≡ some base
    → Leaves (PrintsLine stack) Never (Overruns (line_buffer stack)) base (main stack env s)
unfolding main nested last_read last_text print_string
uart_main-Leaves stack env s base h = ground arith

-- Whenever the line opens and a read fills all of a buffer of 256 bytes with no zero byte among
-- them, the program reads beyond its buffer.
pub uart_main-out_of_bounds :
    (stack : List ℕ) (env : Env Call) (s : St Call (Unit {0}))
    → length stack ≡ 256
    → ((l : Log Call) (path : String) → is_neg (env l (open_rdwr path)).code ≡ false)
    → ((l : Log Call) (fd : ℤ) → (env l (read fd 256)).code ≡ pos 256)
    → ((l : Log Call) (fd : ℤ) → length (env l (read fd 256)).bytes ≡ 256)
    → ((l : Log Call) (fd : ℤ) → NoZero (env l (read fd 256)).bytes)
    → Faults out_of_bounds (main stack env s)
unfolding main print_string
uart_main-out_of_bounds stack env s size opens counts fills text = ground (
  arith,
  opens s.log "/dev/ttyS0",
  counts ready.log fd,
  fills ready.log fd,
  overlay_full received stack,
  c_string_of_NoZero received (text ready.log fd),
)
  where
    fd : ℤ
    fd = (env s.log (open_rdwr "/dev/ttyS0")).code

    opened : St Call (Unit {0})
    opened = after env (tcgetattr fd) (after env (open_rdwr "/dev/ttyS0") s)

    ready : St Call (Unit {0})
    ready = after env (tcsetattr_now fd) (after env cfsetospeed_9600 opened)

    received : List ℕ
    received = (env ready.log (read fd 256)).bytes
