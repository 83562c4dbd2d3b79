-- ===== src/CharDriver/I2c/Lifecycle.antt =====
-- What the I2C driver holds after loading, use and removal; the device node is not checked for.
use linux_device_drivers.Base.{
  ℕ, suc, [], ◌∷◌, ℤ, pos, ◌≡◌, ◌⊎◌, Bool, true, false, some, List, ◌++◌, not, arith, is_neg,
}
use linux_device_drivers.Machine.{St, Env, Log, Returns}
use linux_device_drivers.Machine.Resources.{Resource, nested}
use linux_device_drivers.Kernel.{Call, kernel_tracked, device_create}
use linux_device_drivers.Kernel.History.{verdict}
use linux_device_drivers.CharDriver.I2c.{Globals, i2c_char_driver_init, owns}

-- How often a device node was asked for.
abbrev pub asks_node : Call → ℕ → ℕ
asks_node (device_create _ _ _) older = suc older
asks_node _ older = older

unfoldable pub nodes_asked : Log Call → ℕ
nodes_asked [] = 0
nodes_asked (e ∷ l) = asks_node e.call (nodes_asked l)

-- A loaded driver holds its frame, and its node exactly if the last call, `device_create`, has
-- reported no failure; what it returned is 0 in both cases.
abbrev pub LoadedWith : List Resource → Bool → St Call Globals → Type 0
LoadedWith base node t =
    (nested t.log ≡ some (owns node t.globals ++ base)) × (is_neg (verdict t.log) ≡ not node)

-- How loading may end, after `before` requests for a node: without having come to the node, or having
-- asked for it once.
abbrev pub Ends : List Resource → ℕ → ℤ → St Call Globals → Type 0
Ends base before r t =
    (is_neg r ≡ true)
      × (r ≡ verdict t.log)
      × (nodes_asked t.log ≡ before)
      × (nested t.log ≡ some base)
    ⊎ (r ≡ pos 0) × (nodes_asked t.log ≡ suc before) × LoadedWith base true t
    ⊎ (r ≡ pos 0) × (nodes_asked t.log ≡ suc before) × LoadedWith base false t

module _ (env : Env Call) (s : St Call Globals) (base : List Resource) where
  -- If the I2C driver, the device number or the class cannot be had, `i2c_char_driver_init` gives
  -- back what it has taken and returns the failure, without having asked for a device node. Otherwise
  -- it asks for the node once and returns 0, also if that could not be created.
  pub i2c_char_driver_init-LoadedWith :
      nested s.log ≡ some base
      → Returns (Ends base (nodes_asked s.log)) (i2c_char_driver_init env s)
  unfolding i2c_char_driver_init nested verdict nodes_asked
  i2c_char_driver_init-LoadedWith h = ground arith
