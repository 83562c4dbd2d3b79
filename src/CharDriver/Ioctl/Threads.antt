-- ===== src/CharDriver/Ioctl/Threads.antt =====
-- `etx_ioctl` one call at a time, as threads run it that have the device open at once. The file has
-- no lock.
pub mod Alone
pub mod Races
pub mod Atomic
use linux_device_drivers.Base.{
  ℕ, zero, suc, ℤ, pos, ◌≡◌, List, [], ◌∷◌, is_nonzero, ◌==◌, if◌then◌else◌, overlay, get_or, set,
}
use linux_device_drivers.Machine.{St, Env, ok, pure, ◌>>=◌, ◌>>◌, invoke, get, put}
use linux_device_drivers.Kernel.{
  Call, K, printk, info, copy_from_user, copy_to_user, pr_info, pr_err,
}
use linux_device_drivers.CharDriver.Ioctl.{
  Globals, int32, wr_value, rd_value, etx_open, etx_release, etx_read, etx_write,
}

-- Where a thread stands in `etx_ioctl`, with what it still has to look at: at its `switch`, after one
-- of the two copies, before the line on the value, or at its `return`.
pub data Pc : Type 0 where
  idle : Pc
  entered : (cmd arg : ℕ) → Pc
  copied_in : (code : ℤ) → Pc
  showing : Pc
  copied_out : (code : ℤ) → Pc
  returned : ℤ → Pc

pub data IsFree : Pc → Type 0 where
  not_in : IsFree idle
  done : {z : ℤ} → IsFree (returned z)

-- The operations of `fops` that make a single call.
pub data SingleCall : K Globals ℤ → Type 0 where
  by_open : SingleCall etx_open
  by_release : SingleCall etx_release
  by_read : (len : ℕ) → SingleCall (etx_read len)
  by_write : (len : ℕ) → SingleCall (etx_write len)

module _ (iow ior : ℕ → ℕ → ℕ → ℕ) where
  -- The next call of a thread, up to the call after it. A copy reads or writes `value` itself.
  unfoldable pub advance : Pc → K Globals Pc
  unfolding int32
  advance idle = pure idle
  advance (entered cmd arg) =
      if cmd == wr_value iow ior
      then (do
        r ← invoke (copy_from_user arg 4)
        g ← get
        put (record g { value = overlay r.bytes g.value })
        pure (copied_in r.code))
      else if cmd == rd_value iow ior
      then (do g ← get; r ← invoke (copy_to_user arg g.value); pure (copied_out r.code))
      else (do pr_info "Default\n"; pure (returned (pos 0)))
  advance (copied_in code) =
      if is_nonzero code then (do pr_err "Data Write : Err!\n"; pure showing) else pure showing
  advance showing = do
    g ← get
    invoke (printk info "Value = %d\n" (int32 g.value ∷ []))
    pure (returned (pos 0))
  advance (copied_out code) =
      if is_nonzero code
      then (do pr_err "Data Read : Err!\n"; pure (returned (pos 0)))
      else pure (returned (pos 0))
  advance (returned z) = pure (returned z)

  -- A thread that is alone makes this many steps.
  unfoldable pub steps : ℕ → Pc → K Globals Pc
  steps zero p = pure p
  steps (suc n) p = do q ← advance p; steps n q

  -- The threads, and what they share. A thread that is idle, or that has returned, may call `etx_ioctl`
  -- again, or one of the operations that make a single call.
  pub record World : Type 0 where
    pub threads : List Pc
    pub shared : St Call Globals

  pub data Step (env : Env Call) (w : World) : World → Type 0 where
    begin :
        (i cmd arg : ℕ)
        → IsFree (get_or w.threads i idle)
        → Step env w (record { threads = set w.threads i (entered cmd arg); shared = w.shared })
    move :
        (i : ℕ) {p : Pc} {t : St Call Globals}
        → advance (get_or w.threads i idle) env w.shared ≡ ok p t
        → Step env w (record { threads = set w.threads i p; shared = t })
    call :
        (i : ℕ) (m : K Globals ℤ) {z : ℤ} {t : St Call Globals}
        → IsFree (get_or w.threads i idle)
        → SingleCall m
        → m env w.shared ≡ ok z t
        → Step env w (record { threads = set w.threads i idle; shared = t })

  pub data Reach (env : Env Call) (start : World) : World → Type 0 where
    here : Reach env start start
    later : {w u : World} → Reach env start w → Step env w u → Reach env start u
