-- ===== src/CharDriver/SpiChar/Lives.antt =====
-- The lives of the SPI character driver on a kernel that finds its SPI device.
use linux_device_drivers.Base.{ℕ, ◌≡◌, Bool, true, false, some, List, ◌++◌, not, arith, is_neg}
use linux_device_drivers.Machine.{
  is_addr, St, Env, Log, Returns, Returns-IfReturns, Returns-mono, null,
}
use linux_device_drivers.Machine.Resources.{Resource, nested}
use linux_device_drivers.Kernel.{Call, kernel_tracked, cdev_alloc, spi_bus_find_device, is_null}
use linux_device_drivers.Kernel.Lifecycle.{Driver, in_memory, Life, Life-invariant}
use linux_device_drivers.Kernel.Replies.{NullOrAddress}
use linux_device_drivers.CharDriver.SpiChar.{
  Globals, spi_bus_id, spi_device_id, spi_char_init, spi_char_exit, spi_char_read, owns,
}
use linux_device_drivers.CharDriver.SpiChar.Lifecycle.{
  allocated, found, register_cdev-Ends, spi_char_exit-nested,
}
use linux_device_drivers.CharDriver.SpiChar.Read.{Fills, transfer, spi_char_read-count}

-- A read by a user: the address of the buffer, and the count.
pub record Operation : Type 0 where
  pub user_buf : ℕ
  pub count : ℕ

-- The static variables of a module that has just been put into memory.
abbrev pub initial : Globals
initial = record { dev_num = 0; my_cdev = null; my_spi_dev = null }

abbrev pub spi_char_module : Driver Globals Operation
spi_char_module = record {
  statics = initial;
  init = spi_char_init;
  exit = spi_char_exit;
  operation = λ op. spi_char_read op.user_buf op.count;
  owns = owns;
}

-- What the calls promise by their documentation, and that the SPI device is there.
pub record IsSound (env : Env Call) : Type 0 where
  pub alloc : NullOrAddress cdev_alloc env
  pub transfers : NullOrAddress transfer env
  pub fills : Fills env
  pub finds :
      (l : Log Call) → is_null (env l (spi_bus_find_device spi_bus_id spi_device_id)).ptr ≡ false

-- What the module holds in each phase of its life.
abbrev pub Holds : List Resource → Bool → St Call Globals → Type 0
Holds base true s =
    (is_addr s.globals.my_cdev ≡ true) × (nested s.log ≡ some (owns s.globals ++ base))
Holds base false s = nested s.log ≡ some base

module _ (base : List Resource) (env : Env Call) (s : St Call Globals) where
  init-Holds :
      IsSound env
      → Holds base false s
      → Returns (λ r. Holds base (not (is_neg r))) (spi_char_init env (in_memory spi_char_module s))
  unfolding spi_char_init nested
  init-Holds sound h =
      let fresh : St Call Globals = record s { globals = initial } in
      ground (
        arith,
        sound.finds (allocated env fresh).log,
        register_cdev-Ends env (found env fresh) base sound.alloc,
      )

  exit-Holds : Holds base true s → Returns (λ _. Holds base false) (spi_char_exit env s)
  exit-Holds h = spi_char_exit-nested env s base h.0 h.1

  read-Holds :
      (op : Operation)
      → IsSound env
      → Holds base true s
      → Returns (λ _. Holds base true) (spi_char_module.operation op env s)
  read-Holds op sound h =
      Returns-mono _ _ (spi_char_read op.user_buf op.count env s) (λ r t p. ground arith)
        (spi_char_read-count op.user_buf op.count env s (owns s.globals ++ base) sound.transfers
          sound.fills h.1)

-- In every life of the module, on a kernel that finds the SPI device and whose calls keep to their
-- documentation: when it is not loaded, everything taken has been given back, newest first; when it
-- is loaded, `my_cdev` is the address of a character device, and it holds what `owns` lists on top of
-- what was held before. Each load starts with static variables that are 0.
pub spi_char_module-Holds :
    (env : Env Call) (start : St Call Globals) (base : List Resource) (loaded : Bool)
    (s : St Call Globals)
    → IsSound env
    → nested start.log ≡ some base
    → Life spi_char_module env start loaded s
    → Holds base loaded s
spi_char_module-Holds env start base loaded s sound h life =
    Life-invariant spi_char_module (Holds base) env (λ s. init-Holds base env s sound)
      (λ s. exit-Holds base env s)
      (λ op s p.
        Returns-IfReturns (λ _. Holds base true) (spi_char_module.operation op env s)
          (read-Holds base env s op sound p))
      h life
