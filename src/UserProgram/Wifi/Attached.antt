-- ===== src/UserProgram/Wifi/Attached.antt =====
-- Wi-fi_userSpace.c run on the device of a driver: the system hands the program's calls to the driver
-- and the driver's answers to the program.
use linux_device_drivers.Base.{
  ℕ, ℤ, pos, negsuc, ◌≡◌, String, Option, none, some, List, [], ◌∷◌, length, is_neg, if◌then◌else◌,
}
use linux_device_drivers.Machine.{St, Env, Log, Reply, Outcome, ok, exited, fault}
use linux_device_drivers.Kernel
use linux_device_drivers.Kernel.{K, FileOp, open_file, release_file, read_file, write_file}
use linux_device_drivers.Posix
use linux_device_drivers.Posix.{open_rdwr, read, write, close}

-- The file operation that a call of the program on the device leads to.
abbrev pub operation_of : Posix.Call → Option FileOp
operation_of (open_rdwr _) = some open_file
operation_of (read _ n) = some (read_file n)
operation_of (write _ bs) = some (write_file (length bs))
operation_of (close _) = some release_file
operation_of _ = none

-- Whether a call is on the file of that path: all but the opening of another.
abbrev pub IsOn : String → Posix.Call → Type 0
IsOn path (open_rdwr p) = p ≡ path
IsOn path _ = Unit {0}

-- What a call returns: -1 for an error of the driver, a descriptor for an open file, and else the
-- driver's number.
abbrev pub result_of : ℕ → FileOp → ℤ → ℤ
result_of fd open_file z = if is_neg z then negsuc 0 else pos fd
result_of fd _ z = if is_neg z then negsuc 0 else z

-- The file operations of a driver: `none` for one that its table leaves out.
module _ {G : Type 0} (table : FileOp → Option (K G ℤ)) (kernel : Env Kernel.Call)
    (k : St Kernel.Call G) where
  abbrev pub state_after : Outcome Kernel.Call G ℤ → St Kernel.Call G → St Kernel.Call G
  state_after (ok _ t) s = t
  state_after (exited _ t) s = t
  state_after (fault _ t) s = t

  abbrev pub number_of : Outcome Kernel.Call G ℤ → ℤ
  number_of (ok z _) = z
  number_of _ = negsuc 0

  abbrev pub run_entry : Option (K G ℤ) → St Kernel.Call G → St Kernel.Call G
  run_entry none s = s
  run_entry (some m) s = state_after (m kernel s) s

  abbrev pub step : Option FileOp → St Kernel.Call G → St Kernel.Call G
  step none s = s
  step (some op) s = run_entry (table op) s

  -- The driver, loaded in the state `k`, after the program's calls.
  unfoldable pub driver : Log Posix.Call → St Kernel.Call G
  driver [] = k
  driver (e ∷ l) = step (operation_of e.call) (driver l)

  -- What an entry of the table answers. By the documentation, a call for which the table has no entry
  -- fails.
  abbrev pub entry_answer : Option (K G ℤ) → St Kernel.Call G → ℤ
  entry_answer none s = negsuc 0
  entry_answer (some m) s = number_of (m kernel s)

  -- What a call on the device answers after the calls of the log `l`: by the documentation, what the
  -- driver's function returns. The bytes are those that it copies to the user, here none.
  abbrev pub Answers : ℕ → Option FileOp → Log Posix.Call → Reply → Type 0
  Answers fd none l r = Unit {0}
  Answers fd (some op) l r =
      (r.code ≡ result_of fd op (entry_answer (table op) (driver l))) × (r.bytes ≡ [])

  -- A system in which the file of that path is a node of the driver's device, which another path need
  -- not open.
  abbrev pub IsServed : String → ℕ → Env Posix.Call → Type 0
  IsServed path fd system =
      (l : Log Posix.Call) (c : Posix.Call)
      → IsOn path c
      → Answers fd (operation_of c) l (system l c)

-- The messages of a driver, newest first.
abbrev pub add_message : Kernel.Call → List String → List String
add_message (Kernel.printk _ m _) older = m ∷ older
add_message _ older = older

unfoldable pub messages : Log Kernel.Call → List String
messages [] = []
messages (e ∷ l) = add_message e.call (messages l)
