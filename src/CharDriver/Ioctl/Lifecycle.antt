-- ===== src/CharDriver/Ioctl/Lifecycle.antt =====
-- What `etx_driver_init` holds after each failure, and what `etx_driver_exit` gives back.
use linux_device_drivers.Base.{ℤ, pos, negsuc, ◌≡◌, ◌⊎◌, Option, some, List, [], ◌∷◌, ◌++◌, arith}
use linux_device_drivers.Machine.{St, Env, Returns, after}
use linux_device_drivers.Machine.Resources.{Resource, resource, cdev_added, region, held}
use linux_device_drivers.Kernel.{
  Call, cdev_init, cdev_add, static_cdev, alloc_chrdev_region, major, minor, printk, info,
  class_create, device_create, kernel_tracked,
}
use linux_device_drivers.Kernel.History.{last_fallible}
use linux_device_drivers.CharDriver.Ioctl.{Globals, create_class, add_cdev, etx_driver_init, owns}

-- What is still held after a failure of the given call.
abbrev pub left_behind : Option Call → List Resource
left_behind (some (class_create _)) = resource cdev_added 0 ∷ []
left_behind (some (device_create _ _ _)) = resource cdev_added 0 ∷ []
left_behind _ = []

-- How loading may end.
abbrev pub Ends : List Resource → ℤ → St Call Globals → Type 0
Ends base r t =
    (r ≡ pos 0) × (held t.log ≡ some (owns t.globals ++ base))
    ⊎ (r ≡ negsuc 0) × (held t.log ≡ some (left_behind (last_fallible t.log) ++ base))

create_class-Ends :
    (env : Env Call) (s : St Call Globals) (base : List Resource)
    → held s.log ≡ some (resource cdev_added 0 ∷ resource region s.globals.dev ∷ base)
    → Returns (Ends base) (create_class env s)
unfolding create_class held last_fallible
create_class-Ends env s base h = ground arith

add_cdev-Ends :
    (env : Env Call) (s : St Call Globals) (base : List Resource)
    → held s.log ≡ some (resource region s.globals.dev ∷ base)
    → Returns (Ends base) (add_cdev env s)
unfolding add_cdev held last_fallible
add_cdev-Ends env s base h =
    let t = after env (cdev_init static_cdev) s in
    ground (arith, create_class-Ends env (after env (cdev_add static_cdev s.globals.dev 1) t) base)

-- The state in which `etx_driver_init` comes to the character device, if it has a device number.
abbrev pub numbered : Env Call → St Call Globals → St Call Globals
numbered env s =
    let number = (env s.log (alloc_chrdev_region 0 1 "etx_Dev")).num in
    let allocated : St Call Globals = record (after env (alloc_chrdev_region 0 1 "etx_Dev") s) {
      globals = record s.globals { dev = number };
    } in
    let ma = (env allocated.log (major number)).num in
    let halfway : St Call Globals = after env (major number) allocated in
    let mi = (env halfway.log (minor number)).num in
    after env (printk info "Major = %d Minor = %d \n" (pos ma ∷ pos mi ∷ []))
      (after env (minor number) halfway)

module _ (env : Env Call) (s : St Call Globals) (base : List Resource) where
  -- `etx_driver_init` returns 0 and holds a device node, a class, a character device and a device
  -- number; or it returns -1. After a failure to make the class or the node, the character device
  -- is still registered, though the module is not loaded; after an earlier one nothing is left.
  pub etx_driver_init-Ends : held s.log ≡ some base → Returns (Ends base) (etx_driver_init env s)
  unfolding etx_driver_init held last_fallible
  etx_driver_init-Ends h = ground (arith, add_cdev-Ends env (numbered env s) base)
