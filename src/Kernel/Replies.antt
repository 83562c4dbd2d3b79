-- ===== src/Kernel/Replies.antt =====
-- What the documentation of a call promises of its reply.
use linux_device_drivers.Base.{◌≡◌, false}
use linux_device_drivers.Machine.{Env, Log}
use linux_device_drivers.Kernel.{Call, is_err}

-- A call that is documented to return NULL or an address, and no error pointer.
abbrev pub NullOrAddress : Call → Env Call → Type 0
NullOrAddress c env = (l : Log Call) → is_err (env l c).ptr ≡ false
