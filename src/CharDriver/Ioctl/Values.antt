-- ===== src/CharDriver/Ioctl/Values.antt =====
-- The device as a variable of type `int32_t`: a user sets it to a number and gets it back.
use linux_device_drivers.Base.{
  ℕ, ◌-◌, ◌^◌, ◌<◌, ◌≡◌, ◌∙◌, ap, sym, refl, ℤ, pos, negsuc, false, Option, none, some, List, [],
  ◌∷◌, arith, ◌==◌, overlay, overlay_full, length, word32, number_of-word32,
}
use linux_device_drivers.Machine.{St, Env, Log, Returns, Returns-and_then, Returns-mono, ◌>>◌}
use linux_device_drivers.Kernel.{Call, K, printk, copy_from_user}
use linux_device_drivers.Kernel.History.{last_copy}
use linux_device_drivers.CharDriver.Ioctl.{
  Globals, Operation, ioctl, open_file, release_file, read_file, write_file, fops, etx_ioctl, int32,
  wr_value, rd_value,
}
use linux_device_drivers.CharDriver.Ioctl.Register.{run, Sent}

-- The numbers of an `int32_t`, and their four bytes in two's complement.
abbrev pub Fits : ℤ → Type 0
Fits (pos n) = n < 2 ^ 31
Fits (negsuc n) = n < 2 ^ 31

abbrev pub encode : ℤ → List ℕ
encode (pos n) = word32 n
encode (negsuc n) = word32 (2 ^ 32 - 1 - n)

int32-encode : (z : ℤ) → Fits z → int32 (encode z) ≡ z
unfolding int32
int32-encode (pos n) h = let w = number_of-word32 n (omega arith) in ground arith
int32-encode (negsuc n) h = let w = number_of-word32 (2 ^ 32 - 1 - n) (omega arith) in ground arith

length-encode : (z : ℤ) → length (encode z) ≡ 4
length-encode (pos n) = refl
length-encode (negsuc n) = refl

-- The number of the newest line with one number.
abbrev pub number_in : Call → Option ℤ → Option ℤ
number_in (printk _ _ (z ∷ [])) older = some z
number_in _ older = older

unfoldable pub last_number : Log Call → Option ℤ
last_number [] = none
last_number (e ∷ l) = number_in e.call (last_number l)

module _ (iow ior : ℕ → ℕ → ℕ → ℕ) where
  -- Operations that do not set the value.
  abbrev pub Quiet : Operation → Type 0
  Quiet (ioctl cmd arg) = (cmd == wr_value iow ior) ≡ false
  Quiet _ = Unit {0}

  abbrev pub AllQuiet : List Operation → Type 0
  AllQuiet [] = Unit {0}
  AllQuiet (op ∷ ops) = Quiet op × AllQuiet ops

  abbrev Same : St Call Globals → St Call Globals → Type 0
  Same s t = (t.globals.value ≡ s.globals.value) × (last_number t.log ≡ last_number s.log)

  fops-Same :
      (op : Operation) (env : Env Call) (s : St Call Globals)
      → Quiet op
      → Returns (λ _. Same s) (fops iow ior op env s)
  unfolding fops last_number
  fops-Same open_file env s q = ground arith
  fops-Same release_file env s q = ground arith
  fops-Same (read_file len) env s q = ground arith
  fops-Same (write_file len) env s q = ground arith
  fops-Same (ioctl cmd arg) env s q = ground arith

  run-Same :
      (ops : List Operation) (env : Env Call) (s : St Call Globals)
      → AllQuiet ops
      → Returns (λ _. Same s) (run iow ior ops env s)
  unfolding run
  run-Same [] env s q = ground arith
  run-Same (op ∷ ops) env s q =
      Returns-and_then (λ _. Same s) (λ _. Same s) (fops iow ior op env s) _
        (λ _ t h.
          Returns-mono (λ _. Same t) (λ _. Same s) (run iow ior ops env t) (λ _ u k. ground arith)
            (run-Same ops env t q.1))
        (fops-Same op env s q.0)

  -- A user sets the value from the address `a`, anything that does not set it happens, and the value
  -- is read to the address `b`.
  abbrev pub set_and_get : ℕ → ℕ → List Operation → K Globals ℤ
  set_and_get a b others = do
    etx_ioctl iow ior (wr_value iow ior) a
    run iow ior others
    etx_ioctl iow ior (rd_value iow ior) b

  -- The value is that of a number, and it was shown.
  abbrev Holds : ℤ → St Call Globals → Type 0
  Holds z t = (t.globals.value ≡ encode z) × (last_number t.log ≡ some z)

  set-Holds :
      (a : ℕ) (z : ℤ) (env : Env Call) (s : St Call Globals)
      → Fits z
      → length s.globals.value ≡ 4
      → (env s.log (copy_from_user a 4)).bytes ≡ encode z
      → Returns (λ _. Holds z) (etx_ioctl iow ior (wr_value iow ior) a env s)
  unfolding etx_ioctl last_number
  set-Holds a z env s h four sent =
      let bytes = (env s.log (copy_from_user a 4)).bytes in
      let whole : overlay bytes s.globals.value ≡ encode z =
        overlay_full bytes s.globals.value (ap length sent ∙ length-encode z ∙ sym four) ∙ sent in
      ground (arith, whole, int32-encode z h)

  get-Sent :
      (b : ℕ) (z : ℤ) (env : Env Call) (t : St Call Globals)
      → (rd_value iow ior == wr_value iow ior) ≡ false
      → Holds z t
      → Returns
          (λ _ u. Sent b (encode z) u × (last_number u.log ≡ some z))
          (etx_ioctl iow ior (rd_value iow ior) b env t)
  unfolding etx_ioctl last_number last_copy
  get-Sent b z env t apart h = ground arith

  -- `WR_VALUE` copies the four bytes of a signed number of 32 bits from the user. Then any operations
  -- are called but another `WR_VALUE`, with copies that succeed or fail. Then `RD_VALUE`, a command of
  -- another number, copies the same four bytes to the user, and the number is the newest that was
  -- shown in a line with one number.
  pub set_and_get-Sent :
      (a b : ℕ) (others : List Operation) (z : ℤ) (env : Env Call) (s : St Call Globals)
      → (rd_value iow ior == wr_value iow ior) ≡ false
      → AllQuiet others
      → Fits z
      → length s.globals.value ≡ 4
      → (env s.log (copy_from_user a 4)).bytes ≡ encode z
      → Returns
          (λ _ u. Sent b (encode z) u × (last_number u.log ≡ some z))
          (set_and_get a b others env s)
  set_and_get-Sent a b others z env s apart quiet h four sent =
      Returns-and_then (λ _. Holds z) _ (etx_ioctl iow ior (wr_value iow ior) a env s) _
        (λ _ t set.
          Returns-and_then (λ _. Same t) _ (run iow ior others env t) _
            (λ _ u same. get-Sent b z env u apart (same.0 ∙ set.0, same.1 ∙ set.1))
            (run-Same others env t quiet))
        (set-Holds a z env s h four sent)
