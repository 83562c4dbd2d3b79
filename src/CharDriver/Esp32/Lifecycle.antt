-- ===== src/CharDriver/Esp32/Lifecycle.antt =====
-- The balance of what the ESP32 driver holds, over every life of the module.
use linux_device_drivers.Base.{◌≡◌, Bool, some, List, ◌++◌, arith}
use linux_device_drivers.Machine.{St, Env, Returns, Returns-mono}
use linux_device_drivers.Machine.Resources.{Resource, nested}
use linux_device_drivers.Kernel.{Call, kernel_tracked}
use linux_device_drivers.Kernel.History.{verdict}
use linux_device_drivers.Kernel.Lifecycle.{
  Initialises, Keeps, IsBalanced, Life, Balance, Life-Balance,
}
use linux_device_drivers.CharDriver.Esp32.{
  Operation, Globals, esp32_init, esp32_exit, esp32_fops, owns, esp32_driver,
}

module _ (env : Env Call) (s : St Call Globals) (base : List Resource) where
  -- If loading fails, `esp32_init` has given back all that it had taken, newest first, and returns
  -- the failure of the last call that can fail; otherwise it returns 0 and holds what `owns` lists.
  esp32_init-Initialises :
      nested s.log ≡ some base → Returns (Initialises owns base) (esp32_init env s)
  unfolding esp32_init nested verdict
  esp32_init-Initialises h = ground arith

  pub esp32_exit-nested :
      nested s.log ≡ some (owns s.globals ++ base)
      → Returns (λ _ t. nested t.log ≡ some base) (esp32_exit env s)
  unfolding esp32_exit nested
  esp32_exit-nested h = ground arith

esp32_fops-Keeps :
    (op : Operation) (env : Env Call) (s : St Call Globals) (base : List Resource)
    → Keeps owns base s
    → Returns (λ _. Keeps owns base) (esp32_fops op env s)
unfolding esp32_fops nested
esp32_fops-Keeps op env s base h = ground arith

esp32-IsBalanced : IsBalanced esp32_driver
esp32-IsBalanced = record {
  init_loads = λ env s base h.
      Returns-mono _ _ (esp32_init env s) (λ r t p. p.0) (esp32_init-Initialises env s base h);
  exit_releases = esp32_exit-nested;
  operation_keeps = esp32_fops-Keeps;
}

-- In every life of the module, however the kernel answers: when it is not loaded, the calls made so
-- far have given back all that they had taken, each time the newest thing first; when it is loaded,
-- it holds what `owns` lists on top of what was held before.
pub esp32-Balance :
    (env : Env Call) (start : St Call Globals) (base : List Resource) (loaded : Bool)
    (s : St Call Globals)
    → nested start.log ≡ some base
    → Life esp32_driver env start loaded s
    → Balance esp32_driver base loaded s
esp32-Balance env start base loaded s h life =
    Life-Balance esp32_driver esp32-IsBalanced base h life
