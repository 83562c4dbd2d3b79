-- ===== src/BusDriver/Uart/Lifecycle.antt =====
-- The balance of what the UART driver holds, over every life of the module.
use linux_device_drivers.Base.{◌≡◌, Bool, some, List, ◌++◌, arith}
use linux_device_drivers.Machine.{St, Env, Returns}
use linux_device_drivers.Machine.Resources.{Resource, nested}
use linux_device_drivers.Kernel.{Call, kernel_tracked}
use linux_device_drivers.Kernel.Lifecycle.{Loads, Keeps, IsBalanced, Life, Balance, Life-Balance}
use linux_device_drivers.BusDriver.Uart.{
  Globals, Operation, my_uart_init, my_uart_exit, uart_fops, owns, uart_module,
}

my_uart_init-Loads :
    (env : Env Call) (s : St Call Globals) (base : List Resource)
    → nested s.log ≡ some base
    → Returns (Loads owns base) (my_uart_init env s)
unfolding my_uart_init nested
my_uart_init-Loads env s base h = ground arith

my_uart_exit-nested :
    (env : Env Call) (s : St Call Globals) (base : List Resource)
    → nested s.log ≡ some (owns s.globals ++ base)
    → Returns (λ _ t. nested t.log ≡ some base) (my_uart_exit env s)
unfolding my_uart_exit nested
my_uart_exit-nested env s base h = ground arith

uart_fops-Keeps :
    (op : Operation) (env : Env Call) (s : St Call Globals) (base : List Resource)
    → Keeps owns base s
    → Returns (λ _. Keeps owns base) (uart_fops op env s)
uart_fops-Keeps op env s base h = elim op [ ]

uart_module-IsBalanced : IsBalanced uart_module
uart_module-IsBalanced = record {
  init_loads = my_uart_init-Loads;
  exit_releases = my_uart_exit-nested;
  operation_keeps = uart_fops-Keeps;
}

-- In every life of the module, however the kernel answers: when it is not loaded, its registration
-- has been given back as often as it was made; when it is loaded, it holds one registration on top
-- of what was held before.
uart_module-Balance :
    (env : Env Call) (start : St Call Globals) (base : List Resource) (loaded : Bool)
    (s : St Call Globals)
    → nested start.log ≡ some base
    → Life uart_module env start loaded s
    → Balance uart_module base loaded s
uart_module-Balance env start base loaded s h life =
    Life-Balance uart_module uart_module-IsBalanced base h life
