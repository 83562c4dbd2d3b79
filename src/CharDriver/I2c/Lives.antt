-- ===== src/CharDriver/I2c/Lives.antt =====
-- The lives of the I2C driver: whether its device node is there.
use linux_device_drivers.Base.{◌≡◌, Bool, true, false, some, [], ◌∷◌, not, arith, is_neg}
use linux_device_drivers.Machine.{null, St, Env, Log, Reply, Returns, Returns-IfReturns}
use linux_device_drivers.Machine.Resources.{nested}
use linux_device_drivers.Kernel.{Call, kernel_tracked, device_create, is_err}
use linux_device_drivers.Kernel.Lifecycle.{Driver, in_memory, Life, Life-invariant}
use linux_device_drivers.CharDriver.I2c.{
  Globals, Operation, i2c_char_driver, i2c_char_driver_init, i2c_char_driver_exit, owns,
}

-- Whether the newest attempt to make the device node has made it.
abbrev pub node_made : Call → Reply → Bool → Bool
node_made (device_create _ _ _) r older = not (is_err r.ptr)
node_made _ r older = older

unfoldable pub has_node : Log Call → Bool
has_node [] = false
has_node (e ∷ l) = node_made e.call e.reply (has_node l)

abbrev pub i2c_module : Driver Globals Operation
i2c_module = record {
  statics = record { i2c_client = null; dev_class = null; dev_num = 0 };
  init = i2c_char_driver_init;
  exit = i2c_char_driver_exit;
  operation = i2c_char_driver;
  owns = owns true;
}

-- What the module holds in each phase of its life.
abbrev pub Holds : Bool → St Call Globals → Type 0
Holds true s = nested s.log ≡ some (owns (has_node s.log) s.globals)
Holds false s = nested s.log ≡ some []

module _ (env : Env Call) (s : St Call Globals) where
  init-Holds : Holds false s → Returns (λ r. Holds (not (is_neg r))) (i2c_char_driver_init env s)
  unfolding i2c_char_driver_init nested has_node
  init-Holds h = ground arith

  exit-Holds : Holds true s → Returns (λ _. Holds false) (i2c_char_driver_exit env s)
  unfolding i2c_char_driver_exit nested
  exit-Holds h = ground arith

  operation-Holds :
      (op : Operation) → Holds true s → Returns (λ _. Holds true) (i2c_char_driver op env s)
  unfolding i2c_char_driver nested has_node
  operation-Holds op h = ground arith

-- In every life of the module, however the kernel answers: when it is not loaded, everything taken
-- has been given back, newest first; when it is loaded, it holds the I2C driver, the device number
-- and the class, and a device node exactly if its last attempt to make one has succeeded.
pub i2c_module-Holds :
    (env : Env Call) (start : St Call Globals) (loaded : Bool) (s : St Call Globals)
    → nested start.log ≡ some []
    → Life i2c_module env start loaded s
    → Holds loaded s
i2c_module-Holds env start loaded s h life =
    Life-invariant i2c_module Holds env (λ s. init-Holds env (in_memory i2c_module s))
      (exit-Holds env)
      (λ op s p.
        Returns-IfReturns (λ _. Holds true) (i2c_char_driver op env s) (operation-Holds env s op p))
      h life
