-- ===== src/BusDriver/Spi/Lifecycle.antt =====
-- The balance of what the SPI driver holds, over every life of the module.
use linux_device_drivers.Base.{◌≡◌, Bool, some, List, ◌++◌, arith}
use linux_device_drivers.Machine.{St, Env, Returns}
use linux_device_drivers.Machine.Resources.{Resource, nested}
use linux_device_drivers.Kernel.{Call, kernel_tracked}
use linux_device_drivers.Kernel.Lifecycle.{Loads, Keeps, IsBalanced, Life, Balance, Life-Balance}
use linux_device_drivers.BusDriver.Spi.{
  Globals, Operation, spi_driver_init, spi_driver_exit, spi_driver, owns, spi_module,
}

spi_driver_init-Loads :
    (env : Env Call) (s : St Call Globals) (base : List Resource)
    → nested s.log ≡ some base
    → Returns (Loads owns base) (spi_driver_init env s)
unfolding spi_driver_init nested
spi_driver_init-Loads env s base h = ground arith

spi_driver_exit-nested :
    (env : Env Call) (s : St Call Globals) (base : List Resource)
    → nested s.log ≡ some (owns s.globals ++ base)
    → Returns (λ _ t. nested t.log ≡ some base) (spi_driver_exit env s)
unfolding spi_driver_exit nested
spi_driver_exit-nested env s base h = ground arith

spi_driver-Keeps :
    (op : Operation) (env : Env Call) (s : St Call Globals) (base : List Resource)
    → Keeps owns base s
    → Returns (λ _. Keeps owns base) (spi_driver op env s)
unfolding spi_driver nested
spi_driver-Keeps op env s base h = ground arith

spi_module-IsBalanced : IsBalanced spi_module
spi_module-IsBalanced = record {
  init_loads = spi_driver_init-Loads;
  exit_releases = spi_driver_exit-nested;
  operation_keeps = spi_driver-Keeps;
}

-- In every life of the module, however the kernel answers: when it is not loaded, its registration
-- has been given back as often as it was made; when it is loaded, it holds one registration on top
-- of what was held before.
pub spi_module-Balance :
    (env : Env Call) (start : St Call Globals) (base : List Resource) (loaded : Bool)
    (s : St Call Globals)
    → nested start.log ≡ some base
    → Life spi_module env start loaded s
    → Balance spi_module base loaded s
spi_module-Balance env start base loaded s h life =
    Life-Balance spi_module spi_module-IsBalanced base h life
