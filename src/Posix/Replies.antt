-- ===== src/Posix/Replies.antt =====
-- What the documentation of a call promises of its reply.
use linux_device_drivers.Base.{ℕ, ℤ, pos, negsuc, ◌≡◌, ◌≤◌, length, List}
use linux_device_drivers.Machine.{Env, Log}
use linux_device_drivers.Posix.{Call, read}

-- `read` returns the number of bytes that it has written to the buffer, at most those asked for, or
-- a number below zero.
abbrev pub IsRead : ℕ → ℤ → List ℕ → Type 0
IsRead count (pos n) bytes = (n ≤ count) × (length bytes ≡ n)
IsRead count (negsuc _) bytes = Unit {0}

abbrev pub Reads : Env Call → Type 0
Reads env =
    (l : Log Call) (fd : ℤ) (n : ℕ) → IsRead n (env l (read fd n)).code (env l (read fd n)).bytes
