-- ===== src/CharDriver/SpiChar/Shared.antt =====
-- What the SPI character driver takes and gives back in a kernel where other modules hold things too.
use linux_device_drivers.Base.{
  ℤ, is_neg, if◌then◌else◌, refl, append_assoc, ◌≡◌, some, List, [], ◌∷◌, ◌++◌, arith,
}
use linux_device_drivers.Machine.{Ptr, null, addr, err_ptr, Env, St, Returns, IfReturns}
use linux_device_drivers.Machine.Resources.{
  Resource, resource, region, cdev_added, cdev_object, held,
}
use linux_device_drivers.Machine.Resources.Bag.{Alike}
use linux_device_drivers.Kernel.{Call, kernel_tracked, cdev_alloc, id_of}
use linux_device_drivers.Kernel.Lifecycle.{Driver}
use linux_device_drivers.Kernel.Replies.{NullOrAddress}
use linux_device_drivers.Kernel.Together.{HoldsLike, IsFramed, nothing_left}
use linux_device_drivers.Kernel.Together.Exit.{give_back, give_back_two}
use linux_device_drivers.CharDriver.SpiChar.{
  Globals, spi_char_init, spi_char_exit, spi_char_read, register_cdev,
}
use linux_device_drivers.CharDriver.SpiChar.Lives.{Operation, spi_char_module}
use linux_device_drivers.CharDriver.SpiChar.Lifecycle.{found}
use linux_device_drivers.CharDriver.SpiChar.Read.{Fills, transfer}

-- What a registered character device takes: one that `cdev_alloc` made is held itself as well.
abbrev pub cdev_at : Ptr → List Resource
cdev_at (addr a) = resource cdev_added (id_of (addr a)) ∷ resource cdev_object (id_of (addr a)) ∷ []
cdev_at _ = resource cdev_added 0 ∷ []

-- The module, with what it owns whatever `my_cdev` is.
abbrev pub spi_char_shared : Driver Globals Operation
spi_char_shared = record spi_char_module {
  owns = λ g. cdev_at g.my_cdev ++ resource region g.dev_num ∷ [];
}

-- What the calls promise by their documentation.
pub record IsSound (env : Env Call) : Type 0 where
  pub alloc : NullOrAddress cdev_alloc env
  pub transfers : NullOrAddress transfer env
  pub fills : Fills env

exit-HoldsLike :
    (env : Env Call) (cdev : Ptr) (s : St Call Globals) (things rest : List Resource)
    → s.globals.my_cdev ≡ cdev
    → held s.log ≡ some things
    → Alike things (cdev_at cdev ++ resource region s.globals.dev_num ∷ rest)
    → Returns (λ _ t. HoldsLike rest t.log) (spi_char_exit env s)
unfolding spi_char_exit held
exit-HoldsLike env null s things rest e h alike =
    let number = resource region s.globals.dev_num in
    let (ys, given, left) = give_back_two (resource cdev_added 0) number things rest alike in
    rw e (ys, ground arith, left)
exit-HoldsLike env (err_ptr n) s things rest e h alike =
    let number = resource region s.globals.dev_num in
    let (ys, given, left) = give_back_two (resource cdev_added 0) number things rest alike in
    rw e (ys, ground arith, left)
exit-HoldsLike env (addr a) s things rest e h alike =
    let object = resource cdev_object (id_of (addr a)) in
    let number = resource region s.globals.dev_num in
    let (xs, one, left) =
      give_back (resource cdev_added (id_of (addr a))) things (object ∷ number ∷ rest) alike in
    let (ys, two, left2) = give_back_two object number xs rest left in
    rw e (ys, ground arith, left2)

-- What a load adds to what is held.
abbrev pub Adds : List Resource → ℤ → St Call Globals → Type 0
Adds things r t =
    held t.log ≡ some ((if is_neg r then [] else spi_char_shared.owns t.globals) ++ things)

register_cdev-Adds :
    (env : Env Call) (s : St Call Globals) (things : List Resource)
    → IsSound env
    → held s.log ≡ some (resource region s.globals.dev_num ∷ things)
    → Returns (Adds things) (register_cdev env s)
unfolding register_cdev held
register_cdev-Adds env s things sound h = ground (arith, sound.alloc s.log)

init-Adds :
    (env : Env Call) (s : St Call Globals) (things : List Resource)
    → IsSound env
    → held s.log ≡ some things
    → IfReturns (Adds things) (spi_char_init env s)
unfolding spi_char_init held
init-Adds env s things sound h = ground (arith, register_cdev-Adds env (found env s) things sound)

pub spi_char-IsFramed : (env : Env Call) → IsSound env → IsFramed spi_char_shared nothing_left env
unfolding spi_char_read held
spi_char-IsFramed env sound = record {
  init_adds = λ s things. init-Adds env s things sound;
  exit_removes = λ s things rest h alike.
      exit-HoldsLike env s.globals.my_cdev s things rest refl h (
        rw (append_assoc (cdev_at s.globals.my_cdev) (resource region s.globals.dev_num ∷ []) rest)
          at alike);
  operation_keeps = λ op s things h. ground (arith, sound.transfers s.log, sound.fills s.log);
}
