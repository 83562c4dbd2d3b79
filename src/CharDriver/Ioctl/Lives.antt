-- ===== src/CharDriver/Ioctl/Lives.antt =====
-- The lives of the ioctl driver: what failed loads have left behind.
use linux_device_drivers.Base.{
  ℕ, suc, ℤ, ◌≡◌, Bool, true, false, some, List, [], ◌∷◌, ◌++◌, arith, replicate, is_neg, not,
  if◌then◌else◌,
}
use linux_device_drivers.Machine.{null, St, Env, Log, Reply, Returns, Returns-IfReturns, after}
use linux_device_drivers.Machine.Resources.{Resource, resource, cdev_added, region, held}
use linux_device_drivers.Kernel.{
  Call, kernel_tracked, class_create, device_create, is_err, cdev_add, cdev_init, static_cdev,
}
use linux_device_drivers.Kernel.Lifecycle.{Driver, in_memory, Life, Life-invariant}
use linux_device_drivers.CharDriver.Ioctl.{
  Globals, Operation, fops, add_cdev, create_class, etx_driver_init, etx_driver_exit, owns,
}
use linux_device_drivers.CharDriver.Ioctl.Lifecycle.{numbered}

-- How often making the class or the device node has failed.
abbrev pub count_failure : Call → Reply → ℕ → ℕ
count_failure (class_create _) r n = if is_err r.ptr then suc n else n
count_failure (device_create _ _ _) r n = if is_err r.ptr then suc n else n
count_failure _ r n = n

unfoldable pub failures : Log Call → ℕ
failures [] = 0
failures (e ∷ l) = count_failure e.call e.reply (failures l)

-- A character device for each of these failures.
abbrev pub left_over : Log Call → List Resource
left_over l = replicate (failures l) (resource cdev_added 0)

-- What the module holds in each phase of its life.
abbrev pub Holds : Bool → St Call Globals → Type 0
Holds true s = held s.log ≡ some (owns s.globals ++ left_over s.log)
Holds false s = held s.log ≡ some (left_over s.log)

abbrev pub HoldsAfter : ℤ → St Call Globals → Type 0
HoldsAfter r = Holds (not (is_neg r))

create_class-Holds :
    (env : Env Call) (s : St Call Globals)
    → held s.log ≡ some (resource cdev_added 0 ∷ resource region s.globals.dev ∷ left_over s.log)
    → Returns HoldsAfter (create_class env s)
unfolding create_class held failures
create_class-Holds env s h = ground arith

add_cdev-Holds :
    (env : Env Call) (s : St Call Globals)
    → held s.log ≡ some (resource region s.globals.dev ∷ left_over s.log)
    → Returns HoldsAfter (add_cdev env s)
unfolding add_cdev held failures
add_cdev-Holds env s h =
    let t = after env (cdev_init static_cdev) s in
    ground (arith, create_class-Holds env (after env (cdev_add static_cdev s.globals.dev 1) t))

module _ (iow ior : ℕ → ℕ → ℕ → ℕ) where
  abbrev pub etx_driver : Driver Globals Operation
  etx_driver = record {
    statics = record { value = 0 ∷ 0 ∷ 0 ∷ 0 ∷ []; dev = 0; dev_class = null };
    init = etx_driver_init;
    exit = etx_driver_exit;
    operation = fops iow ior;
    owns = owns;
  }

  fops-Holds :
      (op : Operation) (env : Env Call) (s : St Call Globals)
      → Holds true s
      → Returns (λ _. Holds true) (fops iow ior op env s)
  unfolding fops held failures
  fops-Holds op env s h = ground arith

module _ (env : Env Call) (s : St Call Globals) where
  init-Holds : Holds false s → Returns HoldsAfter (etx_driver_init env s)
  unfolding etx_driver_init held failures
  init-Holds h = ground (arith, add_cdev-Holds env (numbered env s))

  exit-Holds : Holds true s → Returns (λ _. Holds false) (etx_driver_exit env s)
  unfolding etx_driver_exit held failures
  exit-Holds h = ground arith

-- In every life of the module: when it is not loaded, the calls made so far have left exactly one
-- registered character device for each time that the class or the device node could not be made, and
-- nothing else; when it is loaded, it holds what `owns` lists besides these.
pub etx_driver-Holds :
    (iow ior : ℕ → ℕ → ℕ → ℕ) (env : Env Call) (start : St Call Globals) {loaded : Bool}
    {s : St Call Globals}
    → Holds false start
    → Life (etx_driver iow ior) env start loaded s
    → Holds loaded s
etx_driver-Holds iow ior env start h life =
    Life-invariant (etx_driver iow ior) Holds env
      (λ s. init-Holds env (in_memory (etx_driver iow ior) s)) (exit-Holds env)
      (λ op s p.
        Returns-IfReturns (λ _. Holds true) (fops iow ior op env s) (fops-Holds iow ior op env s p))
      h life
