-- ===== src/CharDriver/SpiChar/Lifecycle.antt =====
-- What `spi_char_init` and `spi_char_exit` take and give back, and the fault of a missing device.
use linux_device_drivers.Base.{
  ℕ, suc, [], false, if◌then◌else◌, ℤ, pos, ◌≡◌, ◌⊎◌, true, some, List, ◌∷◌, ◌++◌, arith, is_neg,
}
use linux_device_drivers.Machine.{
  null, is_addr, St, Env, Log, Reply, Outcome, ok, exited, fault, null_dereference, Returns, after,
}
use linux_device_drivers.Machine.Resources.{Resource, resource, region, nested}
use linux_device_drivers.Kernel.{
  Call, kernel_tracked, is_null, cdev_alloc, spi_bus_find_device, alloc_chrdev_region,
}
use linux_device_drivers.Kernel.Replies.{NullOrAddress}
use linux_device_drivers.CharDriver.SpiChar.{
  Globals, spi_bus_id, spi_device_id, register_cdev, spi_char_init, spi_char_exit, owns,
}

-- How many searches for an SPI device have found none.
abbrev pub misses : Call → Reply → ℕ → ℕ
misses (spi_bus_find_device _ _) r older = if is_null r.ptr then suc older else older
misses _ r older = older

unfoldable pub missed : Log Call → ℕ
missed [] = 0
missed (e ∷ l) = misses e.call e.reply (missed l)

-- How loading may end, after `before` searches that found none.
abbrev pub Ends : List Resource → ℕ → Outcome Call Globals ℤ → Type 0
Ends base before (ok r t) =
    (missed t.log ≡ before)
    × ((is_neg r ≡ true) × (nested t.log ≡ some base)
        ⊎ (r ≡ pos 0)
          × (is_addr t.globals.my_cdev ≡ true)
          × (nested t.log ≡ some (owns t.globals ++ base)))
Ends base before (exited z t) = ⊥
Ends base before (fault f t) =
    (f ≡ null_dereference)
    × (missed t.log ≡ suc before)
    × (t.globals.my_spi_dev ≡ null)
    × (nested t.log ≡ some (resource region t.globals.dev_num ∷ base))

pub register_cdev-Ends :
    (env : Env Call) (s : St Call Globals) (base : List Resource)
    → NullOrAddress cdev_alloc env
    → nested s.log ≡ some (resource region s.globals.dev_num ∷ base)
    → is_null s.globals.my_spi_dev ≡ false
    → Ends base (missed s.log) (register_cdev env s)
unfolding register_cdev nested missed
register_cdev-Ends env s base valid h device = ground (arith, valid s.log)

-- The state in which `spi_char_init` has looked for the SPI device, if it has a device number.
abbrev pub allocated : Env Call → St Call Globals → St Call Globals
allocated env s = after env (alloc_chrdev_region 0 1 "spi_char_dev") s

abbrev pub found : Env Call → St Call Globals → St Call Globals
found env s =
    let number = (env s.log (alloc_chrdev_region 0 1 "spi_char_dev")).num in
    let search = spi_bus_find_device spi_bus_id spi_device_id in
    let device = (env (allocated env s).log search).ptr in
    record (after env search (allocated env s)) {
      globals = record s.globals { dev_num = number; my_spi_dev = device };
    }

module _ (env : Env Call) (s : St Call Globals) (base : List Resource) where
  -- On a fresh module, if `cdev_alloc` returns NULL or an address: `spi_char_init` faults exactly if
  -- it has looked for its SPI device and found none. It then reads through `my_cdev`, which is NULL,
  -- and still holds the device number. Otherwise it returns 0 and holds a character device and a
  -- device number, or returns a number below zero and holds nothing.
  pub spi_char_init-Ends :
      s.globals.my_cdev ≡ null
      → NullOrAddress cdev_alloc env
      → nested s.log ≡ some base
      → Ends base (missed s.log) (spi_char_init env s)
  unfolding spi_char_init nested missed
  spi_char_init-Ends first valid h = ground (arith, register_cdev-Ends env (found env s) base valid)

  -- After a successful load, `spi_char_exit` gives everything back, newest first.
  pub spi_char_exit-nested :
      is_addr s.globals.my_cdev ≡ true
      → nested s.log ≡ some (owns s.globals ++ base)
      → Returns (λ _ t. nested t.log ≡ some base) (spi_char_exit env s)
  unfolding spi_char_exit nested
  spi_char_exit-nested e h = ground arith
