-- ===== src/CharDriver/Ioctl/Register.antt =====
-- The device as a register of four bytes: what `ioctl` reads is what was last written.
use linux_device_drivers.Base.{
  ℕ, pos, ◌≡◌, ◌≢◌, List, [], ◌∷◌, some, arith, overlay, overlay_full, length,
}
use linux_device_drivers.Machine.{St, Env, Log, Reply, Returns, Returns-and_then, pure, ◌>>◌}
use linux_device_drivers.Kernel.{Call, K, copy_from_user, copy_to_user}
use linux_device_drivers.Kernel.History.{last_copy}
use linux_device_drivers.CharDriver.Ioctl.{Globals, Operation, fops, etx_ioctl, wr_value, rd_value}

-- What a call does to a register that holds `v`, and what it must send.
abbrev pub write : Call → Reply → List ℕ → List ℕ
write (copy_from_user _ _) r v = overlay r.bytes v
write _ r v = v

abbrev pub Sends : Call → List ℕ → Type 0
Sends (copy_to_user _ bs) v = bs ≡ v
Sends _ v = Unit {0}

-- The register after the calls of a log, from the value `v` at its start.
unfoldable pub register : List ℕ → Log Call → List ℕ
register v [] = v
register v (e ∷ l) = write e.call e.reply (register v l)

-- Whatever was copied to the user is the register at that time.
unfoldable pub Serves : List ℕ → Log Call → Type 0
unfolding register
Serves v [] = Unit {0}
Serves v (e ∷ l) = Sends e.call (register v l) × Serves v l

-- Any operations, one after the other.
unfoldable pub run : (iow ior : ℕ → ℕ → ℕ → ℕ) → List Operation → K Globals (Unit {0})
run iow ior [] = pure tt
run iow ior (op ∷ ops) = do fops iow ior op; run iow ior ops

pub record IsRegister (v : List ℕ) (s : St Call Globals) : Type 0 where
  pub current : s.globals.value ≡ register v s.log
  pub served : Serves v s.log

fops-IsRegister :
    (iow ior : ℕ → ℕ → ℕ → ℕ) (op : Operation) (v : List ℕ) (env : Env Call) (s : St Call Globals)
    → IsRegister v s
    → Returns (λ _. IsRegister v) (fops iow ior op env s)
unfolding fops register Serves
fops-IsRegister iow ior op v env s h = ground arith

-- Over any sequence of operations, `value` is what the copies from the user, whole or cut short, have
-- made of it, and every copy to the user hands out exactly that; no operation faults.
pub run-IsRegister :
    (iow ior : ℕ → ℕ → ℕ → ℕ) (ops : List Operation) (v : List ℕ) (env : Env Call)
    (s : St Call Globals)
    → IsRegister v s
    → Returns (λ _. IsRegister v) (run iow ior ops env s)
unfolding run
run-IsRegister iow ior [] v env s h = h
run-IsRegister iow ior (op ∷ ops) v env s h =
    Returns-and_then (λ _. IsRegister v) (λ _. IsRegister v) (fops iow ior op env s) _
      (λ _ t. run-IsRegister iow ior ops v env t) (fops-IsRegister iow ior op v env s h)

-- The newest copy to the user was to the address `a`, of the bytes `bs`.
abbrev pub Sent : ℕ → List ℕ → St Call Globals → Type 0
Sent a bs t = last_copy t.log ≡ some (a, bs)

module _ (iow ior : ℕ → ℕ → ℕ → ℕ) where
  -- `etx_ioctl` returns 0 for every command, also if copying from or to the user has failed, and
  -- leaves the device number and the class as they were.
  etx_ioctl-zero :
      (cmd arg : ℕ) (env : Env Call) (s : St Call Globals)
      → Returns
          (λ r t.
            (r ≡ pos 0)
            × (t.globals.dev ≡ s.globals.dev)
            × (t.globals.dev_class ≡ s.globals.dev_class))
          (etx_ioctl iow ior cmd arg env s)
  unfolding etx_ioctl
  etx_ioctl-zero cmd arg env s = ground arith

  -- `WR_VALUE` and then `RD_VALUE`, if the four bytes were copied from the user: the next copy to
  -- the user is of those bytes.
  pub etx_ioctl-write_read :
      (a b : ℕ) (env : Env Call) (s : St Call Globals)
      → wr_value iow ior ≢ rd_value iow ior
      → length s.globals.value ≡ 4
      → length (env s.log (copy_from_user a 4)).bytes ≡ 4
      → Returns
          (λ _. Sent b (env s.log (copy_from_user a 4)).bytes)
          ((etx_ioctl iow ior (wr_value iow ior) a >> etx_ioctl iow ior (rd_value iow ior) b) env s)
  unfolding etx_ioctl last_copy
  etx_ioctl-write_read a b env s apart four full =
      ground (arith, overlay_full (env s.log (copy_from_user a 4)).bytes s.globals.value)
