-- ===== src/Tests/Support.antt =====
-- Concrete answers, and the states that runs end in.
use linux_device_drivers.Base.{pos, [], replicate}
use linux_device_drivers.Machine.{null, addr, err_ptr, Reply, Env, St, Outcome, ok, exited, fault}
use linux_device_drivers.Kernel
use linux_device_drivers.Kernel.{cdev_add, device_create, spi_bus_find_device}

-- The answer of a call that succeeds.
abbrev pub success : Reply
success = record { code = pos 0; ptr = addr 40; num = 7; bytes = replicate 16 9 }

-- A kernel that grants everything, and kernels that refuse one call.
abbrev pub granting : Env Kernel.Call
granting l c = success

abbrev pub no_node_answer : Kernel.Call → Reply
no_node_answer (device_create _ _ _) = record success { ptr = err_ptr 11 }
no_node_answer _ = success

abbrev pub no_node : Env Kernel.Call
no_node l c = no_node_answer c

abbrev pub no_spi_answer : Kernel.Call → Reply
no_spi_answer (spi_bus_find_device _ _) = record success { ptr = null }
no_spi_answer _ = success

abbrev pub no_spi : Env Kernel.Call
no_spi l c = no_spi_answer c

-- The state that a run ends in.
abbrev pub state_of : {C G A : Type 0} → Outcome C G A → St C G
state_of (ok _ s) = s
state_of (exited _ s) = s
state_of (fault _ s) = s

-- Static variables before any call.
abbrev pub start : {C G : Type 0} → G → St C G
start g = record { globals = g; log = [] }
