-- ===== src/BusDriver/Usb/Lifecycle.antt =====
-- The balance of what the USB driver holds, over every life of the module.
use linux_device_drivers.Base.{◌≡◌, Bool, some, List, ◌++◌, arith}
use linux_device_drivers.Machine.{St, Env, Returns}
use linux_device_drivers.Machine.Resources.{Resource, nested}
use linux_device_drivers.Kernel.{Call, kernel_tracked}
use linux_device_drivers.Kernel.Lifecycle.{Loads, Keeps, IsBalanced, Life, Balance, Life-Balance}
use linux_device_drivers.BusDriver.Usb.{
  Globals, Operation, my_usb_init, my_usb_exit, my_usb_driver, owns, usb_module,
}

my_usb_init-Loads :
    (env : Env Call) (s : St Call Globals) (base : List Resource)
    → nested s.log ≡ some base
    → Returns (Loads owns base) (my_usb_init env s)
unfolding my_usb_init nested
my_usb_init-Loads env s base h = ground arith

my_usb_exit-nested :
    (env : Env Call) (s : St Call Globals) (base : List Resource)
    → nested s.log ≡ some (owns s.globals ++ base)
    → Returns (λ _ t. nested t.log ≡ some base) (my_usb_exit env s)
unfolding my_usb_exit nested
my_usb_exit-nested env s base h = ground arith

my_usb_driver-Keeps :
    (op : Operation) (env : Env Call) (s : St Call Globals) (base : List Resource)
    → Keeps owns base s
    → Returns (λ _. Keeps owns base) (my_usb_driver op env s)
unfolding my_usb_driver nested
my_usb_driver-Keeps op env s base h = ground arith

usb_module-IsBalanced : IsBalanced usb_module
usb_module-IsBalanced = record {
  init_loads = my_usb_init-Loads;
  exit_releases = my_usb_exit-nested;
  operation_keeps = my_usb_driver-Keeps;
}

-- In every life of the module, however the kernel answers: when it is not loaded, its registration
-- has been given back as often as it was made; when it is loaded, it holds one registration on top
-- of what was held before.
usb_module-Balance :
    (env : Env Call) (start : St Call Globals) (base : List Resource) (loaded : Bool)
    (s : St Call Globals)
    → nested start.log ≡ some base
    → Life usb_module env start loaded s
    → Balance usb_module base loaded s
usb_module-Balance env start base loaded s h life =
    Life-Balance usb_module usb_module-IsBalanced base h life
