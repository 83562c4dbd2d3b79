-- ===== src/CharDriver/Ioctl/Threads/Alone.antt =====
-- The steps of a thread that is alone are those of `etx_ioctl`.
use linux_device_drivers.Base.{ℕ, ◌≡◌, arith}
use linux_device_drivers.Machine.{St, Env, pure, ◌>>=◌}
use linux_device_drivers.Kernel.{Call}
use linux_device_drivers.CharDriver.Ioctl.{Globals, etx_ioctl}
use linux_device_drivers.CharDriver.Ioctl.Threads.{entered, returned, advance, steps}

-- Three steps of a thread that is alone are one run of `etx_ioctl`: the same calls, the same static
-- variables, and the thread stands at the `return` of what it returns.
pub steps-etx_ioctl :
    (iow ior : ℕ → ℕ → ℕ → ℕ) (cmd arg : ℕ) (env : Env Call) (s : St Call Globals)
    → steps iow ior 3 (entered cmd arg) env s
      ≡ (do z ← etx_ioctl iow ior cmd arg; pure (returned z)) env s
unfolding steps advance etx_ioctl
steps-etx_ioctl iow ior cmd arg env s = ground arith
