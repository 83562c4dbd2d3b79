-- ===== src/Posix/Ends.antt =====
-- How a program may end: by `return`, by `exit` or by a fault, with a status and what it then holds.
use linux_device_drivers.Base.{ℕ, ℤ, ◌≡◌, none, some, List, c_string}
use linux_device_drivers.Machine.{Outcome, ok, exited, fault, Fault, Log, out_of_bounds}
use linux_device_drivers.Machine.Resources.{Resource, nested}
use linux_device_drivers.Posix.{Call, posix_tracked}

-- `Returned` and `Exited` say with which status and after which calls; a program that ends in one of
-- these ways holds what it held before. `Faulted` says when it may fault.
abbrev pub Leaves :
    (Returned Exited : ℤ → Log Call → Type 0)
    → (Faulted : Fault → Log Call → Type 0) → List Resource
    → Outcome Call (Unit {0}) ℤ
    → Type 0
Leaves Returned Exited Faulted base (ok z s) = Returned z s.log × (nested s.log ≡ some base)
Leaves Returned Exited Faulted base (exited z s) = Exited z s.log × (nested s.log ≡ some base)
Leaves Returned Exited Faulted base (fault f s) = Faulted f s.log

-- A read beyond a buffer that holds no zero byte.
abbrev pub Overruns : (Log Call → List ℕ) → Fault → Log Call → Type 0
Overruns buffer f l = (f ≡ out_of_bounds) × (c_string (buffer l) ≡ none)

abbrev pub Never : {A : Type 0} → A → Log Call → Type 0
Never a l = ⊥
