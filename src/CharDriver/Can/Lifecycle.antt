-- ===== src/CharDriver/Can/Lifecycle.antt =====
-- The balance of what the CAN driver holds, over every life of the module.
use linux_device_drivers.Base.{◌≡◌, Bool, some, List, ◌++◌, arith}
use linux_device_drivers.Machine.{St, Env, Returns, Returns-mono}
use linux_device_drivers.Machine.Resources.{Resource, nested}
use linux_device_drivers.Kernel.{Call, kernel_tracked, FileOp}
use linux_device_drivers.Kernel.History.{verdict}
use linux_device_drivers.Kernel.Lifecycle.{
  Initialises, Keeps, IsBalanced, Life, Balance, Life-Balance,
}
use linux_device_drivers.CharDriver.Can.{Globals, can_init, can_exit, can_fops, owns, can_driver}

module _ (env : Env Call) (s : St Call Globals) (base : List Resource) where
  -- If loading fails, `can_init` has given back all that it had taken, newest first, and returns
  -- the failure of the last call that can fail; otherwise it returns 0 and holds what `owns` lists.
  can_init-Initialises : nested s.log ≡ some base → Returns (Initialises owns base) (can_init env s)
  unfolding can_init nested verdict
  can_init-Initialises h = ground arith

  pub can_exit-nested :
      nested s.log ≡ some (owns s.globals ++ base)
      → Returns (λ _ t. nested t.log ≡ some base) (can_exit env s)
  unfolding can_exit nested
  can_exit-nested h = ground arith

can_fops-Keeps :
    (op : FileOp) (env : Env Call) (s : St Call Globals) (base : List Resource)
    → Keeps owns base s
    → Returns (λ _. Keeps owns base) (can_fops op env s)
unfolding can_fops nested
can_fops-Keeps op env s base h = ground arith

can-IsBalanced : IsBalanced can_driver
can-IsBalanced = record {
  init_loads = λ env s base h.
      Returns-mono _ _ (can_init env s) (λ r t p. p.0) (can_init-Initialises env s base h);
  exit_releases = can_exit-nested;
  operation_keeps = can_fops-Keeps;
}

-- In every life of the module, however the kernel answers: when it is not loaded, the calls made so
-- far have given back all that they had taken, each time the newest thing first; when it is loaded,
-- it holds what `owns` lists on top of what was held before.
can-Balance :
    (env : Env Call) (start : St Call Globals) (base : List Resource) (loaded : Bool)
    (s : St Call Globals)
    → nested start.log ≡ some base
    → Life can_driver env start loaded s
    → Balance can_driver base loaded s
can-Balance env start base loaded s h life = Life-Balance can_driver can-IsBalanced base h life
