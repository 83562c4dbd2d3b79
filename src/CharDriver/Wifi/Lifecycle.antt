-- ===== src/CharDriver/Wifi/Lifecycle.antt =====
-- The balance of what the Wi-Fi driver holds, over every life of the module.
use linux_device_drivers.Base.{◌≡◌, Bool, some, List, ◌++◌, arith}
use linux_device_drivers.Machine.{St, Env, Returns, Returns-mono}
use linux_device_drivers.Machine.Resources.{Resource, nested}
use linux_device_drivers.Kernel.{Call, kernel_tracked, FileOp}
use linux_device_drivers.Kernel.History.{verdict}
use linux_device_drivers.Kernel.Lifecycle.{
  Initialises, Keeps, IsBalanced, Life, Balance, Life-Balance,
}
use linux_device_drivers.CharDriver.Wifi.{
  Globals, wifi_init, wifi_exit, wifi_fops, owns, wifi_driver,
}

module _ (env : Env Call) (s : St Call Globals) (base : List Resource) where
  -- If loading fails, `wifi_init` has given back all that it had taken, newest first, and returns
  -- the failure of the last call that can fail; otherwise it returns 0 and holds what `owns` lists.
  pub wifi_init-Initialises :
      nested s.log ≡ some base → Returns (Initialises owns base) (wifi_init env s)
  unfolding wifi_init nested verdict
  wifi_init-Initialises h = ground arith

  pub wifi_exit-nested :
      nested s.log ≡ some (owns s.globals ++ base)
      → Returns (λ _ t. nested t.log ≡ some base) (wifi_exit env s)
  unfolding wifi_exit nested
  wifi_exit-nested h = ground arith

wifi_fops-Keeps :
    (op : FileOp) (env : Env Call) (s : St Call Globals) (base : List Resource)
    → Keeps owns base s
    → Returns (λ _. Keeps owns base) (wifi_fops op env s)
unfolding wifi_fops nested
wifi_fops-Keeps op env s base h = ground arith

wifi-IsBalanced : IsBalanced wifi_driver
wifi-IsBalanced = record {
  init_loads = λ env s base h.
      Returns-mono _ _ (wifi_init env s) (λ r t p. p.0) (wifi_init-Initialises env s base h);
  exit_releases = wifi_exit-nested;
  operation_keeps = wifi_fops-Keeps;
}

-- In every life of the module, however the kernel answers: when it is not loaded, the calls made so
-- far have given back all that they had taken, each time the newest thing first; when it is loaded,
-- it holds what `owns` lists on top of what was held before.
wifi-Balance :
    (env : Env Call) (start : St Call Globals) (base : List Resource) (loaded : Bool)
    (s : St Call Globals)
    → nested start.log ≡ some base
    → Life wifi_driver env start loaded s
    → Balance wifi_driver base loaded s
wifi-Balance env start base loaded s h life = Life-Balance wifi_driver wifi-IsBalanced base h life
