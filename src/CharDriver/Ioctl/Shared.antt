-- ===== src/CharDriver/Ioctl/Shared.antt =====
-- What the ioctl driver takes and gives back in a kernel where other modules hold things too.
use linux_device_drivers.Base.{
  ℕ, ℤ, ◌≡◌, Option, some, List, [], ◌∷◌, ◌++◌, arith, is_neg, if◌then◌else◌,
}
use linux_device_drivers.Machine.{St, Env, Returns, IfReturns, after}
use linux_device_drivers.Machine.Resources.{
  Kind, Resource, resource, cdev_added, region, device, held,
}
use linux_device_drivers.Kernel.{
  Call, kernel_tracked, class_create, device_create, cdev_add, cdev_init, static_cdev, id_of,
}
use linux_device_drivers.Kernel.History.{last_fallible}
use linux_device_drivers.Kernel.Together.{IsFramed, Leaves}
use linux_device_drivers.Kernel.Together.Exit.{give_back, erase_if_held_lem}
use linux_device_drivers.CharDriver.Ioctl.{
  Globals, Operation, fops, add_cdev, create_class, etx_driver_init, etx_driver_exit, owns,
}
use linux_device_drivers.CharDriver.Ioctl.Lifecycle.{numbered}
use linux_device_drivers.CharDriver.Ioctl.Lives.{etx_driver}

-- What a failed load leaves, by the newest call that can fail.
abbrev pub left_by : Option Call → List Resource
left_by (some (class_create _)) = resource cdev_added 0 ∷ []
left_by (some (device_create _ _ _)) = resource cdev_added 0 ∷ []
left_by _ = []

-- A load that fails at the class or at the device node leaves the character device registered.
abbrev pub cdev_left : Leaves Operation
cdev_left = record { failed_load = λ l. left_by (last_fallible l); operated = λ op l. [] }

-- What a load adds to what is held.
abbrev pub Adds : List Resource → ℤ → St Call Globals → Type 0
Adds things r t =
    held t.log
    ≡ some ((if is_neg r then left_by (last_fallible t.log) else owns t.globals) ++ things)

create_class-Adds :
    (env : Env Call) (s : St Call Globals) (things : List Resource)
    → held s.log ≡ some (resource cdev_added 0 ∷ resource region s.globals.dev ∷ things)
    → Returns (Adds things) (create_class env s)
unfolding create_class held last_fallible
create_class-Adds env s things h = ground arith

add_cdev-Adds :
    (env : Env Call) (s : St Call Globals) (things : List Resource)
    → held s.log ≡ some (resource region s.globals.dev ∷ things)
    → Returns (Adds things) (add_cdev env s)
unfolding add_cdev held last_fallible
add_cdev-Adds env s things h =
    let t = after env (cdev_init static_cdev) s in
    ground
      (arith, create_class-Adds env (after env (cdev_add static_cdev s.globals.dev 1) t) things)

etx_driver_init-Adds :
    (env : Env Call) (s : St Call Globals) (things : List Resource)
    → held s.log ≡ some things
    → IfReturns (Adds things) (etx_driver_init env s)
unfolding etx_driver_init held last_fallible
etx_driver_init-Adds env s things h = ground (arith, add_cdev-Adds env (numbered env s) things)

pub etx-IsFramed :
    (iow ior : ℕ → ℕ → ℕ → ℕ) (env : Env Call) → IsFramed (etx_driver iow ior) cdev_left env
unfolding etx_driver_exit fops held
etx-IsFramed iow ior env = record {
  init_adds = etx_driver_init-Adds env;
  exit_removes = λ s things rest h alike.
      let g = s.globals in
      let node = resource device g.dev in
      let class = resource Kind.dev_class (id_of g.dev_class) in
      let added = resource cdev_added 0 in
      let number = resource region g.dev in
      let (xs, one, left) = give_back node things (class ∷ added ∷ number ∷ rest) alike in
      let (ys, two, left2) = give_back class xs (added ∷ number ∷ rest) left in
      let (zs, three, left3) = give_back added ys (number ∷ rest) left2 in
      let (ws, four, left4) = give_back number zs rest left3 in
      let removed = erase_if_held_lem node things xs one in (ws, ground arith, left4);
  operation_keeps = λ op s things h. ground arith;
}
