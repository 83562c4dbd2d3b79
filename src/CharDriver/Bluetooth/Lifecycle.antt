-- ===== src/CharDriver/Bluetooth/Lifecycle.antt =====
-- The balance of what the Bluetooth driver holds, over every life of the module.
use linux_device_drivers.Base.{◌≡◌, Bool, some, List, ◌++◌, arith}
use linux_device_drivers.Machine.{St, Env, Returns, Returns-mono}
use linux_device_drivers.Machine.Resources.{Resource, nested}
use linux_device_drivers.Kernel.{Call, kernel_tracked, FileOp}
use linux_device_drivers.Kernel.History.{verdict}
use linux_device_drivers.Kernel.Lifecycle.{
  Initialises, Keeps, IsBalanced, Life, Balance, Life-Balance,
}
use linux_device_drivers.CharDriver.Bluetooth.{
  Globals, bluetooth_init, bluetooth_exit, bluetooth_fops, owns, bluetooth_driver,
}

module _ (env : Env Call) (s : St Call Globals) (base : List Resource) where
  -- If loading fails, `bluetooth_init` has given back all that it had taken, newest first, and returns
  -- the failure of the last call that can fail; otherwise it returns 0 and holds what `owns` lists.
  pub bluetooth_init-Initialises :
      nested s.log ≡ some base → Returns (Initialises owns base) (bluetooth_init env s)
  unfolding bluetooth_init nested verdict
  bluetooth_init-Initialises h = ground arith

  pub bluetooth_exit-nested :
      nested s.log ≡ some (owns s.globals ++ base)
      → Returns (λ _ t. nested t.log ≡ some base) (bluetooth_exit env s)
  unfolding bluetooth_exit nested
  bluetooth_exit-nested h = ground arith

bluetooth_fops-Keeps :
    (op : FileOp) (env : Env Call) (s : St Call Globals) (base : List Resource)
    → Keeps owns base s
    → Returns (λ _. Keeps owns base) (bluetooth_fops op env s)
unfolding bluetooth_fops nested
bluetooth_fops-Keeps op env s base h = ground arith

bluetooth-IsBalanced : IsBalanced bluetooth_driver
bluetooth-IsBalanced = record {
  init_loads = λ env s base h.
      Returns-mono _ _ (bluetooth_init env s) (λ r t p. p.0)
        (bluetooth_init-Initialises env s base h);
  exit_releases = bluetooth_exit-nested;
  operation_keeps = bluetooth_fops-Keeps;
}

-- In every life of the module, however the kernel answers: when it is not loaded, the calls made so
-- far have given back all that they had taken, each time the newest thing first; when it is loaded,
-- it holds what `owns` lists on top of what was held before.
bluetooth-Balance :
    (env : Env Call) (start : St Call Globals) (base : List Resource) (loaded : Bool)
    (s : St Call Globals)
    → nested start.log ≡ some base
    → Life bluetooth_driver env start loaded s
    → Balance bluetooth_driver base loaded s
bluetooth-Balance env start base loaded s h life =
    Life-Balance bluetooth_driver bluetooth-IsBalanced base h life
