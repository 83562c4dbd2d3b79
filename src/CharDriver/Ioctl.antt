-- ===== src/CharDriver/Ioctl.antt =====
-- Ioctl_kernel_device_driver.c: a character device with a 32-bit value that `ioctl` sets and reads.
pub mod Lifecycle
pub mod Register
pub mod Values
pub mod Threads
pub mod Lives
pub mod Shared
use linux_device_drivers.Base.{
  ℕ, zero, suc, ◌+◌, ◌*◌, ◌-◌, ◌^◌, ℤ, pos, negsuc, ssize, List, [], ◌∷◌, is_neg, is_nonzero, ltb,
  ◌==◌, if◌then◌else◌, overlay, length, number_of,
}
use linux_device_drivers.Machine.{Ptr, pure, ◌>>=◌, ◌>>◌, invoke, get, put}
use linux_device_drivers.Machine.Resources.{Kind, Resource, resource, region, device, cdev_added}
use linux_device_drivers.Kernel.{
  K, printk, info, alloc_chrdev_region, unregister_chrdev_region, class_create, class_destroy,
  device_create, device_destroy, cdev_init, cdev_add, cdev_del, static_cdev, copy_from_user, major,
  minor, copy_to_user, is_err, id_of, pr_info, pr_err,
}

-- `value` is held as the four bytes of its memory, the lowest first.
pub record Globals : Type 0 where
  pub value : List ℕ
  pub dev : ℕ
  pub dev_class : Ptr

-- An `int32_t`, from its four bytes.
unfoldable pub int32 : List ℕ → ℤ
int32 bs = let w = number_of bs in if ltb w (2 ^ 31) then pos w else negsuc (2 ^ 32 - w - 1)

unfoldable pub etx_open : K Globals ℤ
etx_open = do pr_info "Device File Opened...!!!\n"; pure (pos 0)

unfoldable pub etx_release : K Globals ℤ
etx_release = do pr_info "Device File Closed...!!!\n"; pure (pos 0)

unfoldable pub etx_read : ℕ → K Globals ℤ
etx_read len = do pr_info "Read Function\n"; pure (pos 0)

unfoldable pub etx_write : ℕ → K Globals ℤ
etx_write len = do pr_info "Write function\n"; pure (ssize len)

-- The macros `_IOW` and `_IOR` of the kernel, which make a command's number of a type, a number and
-- a size, are parameters.
module _ (iow ior : ℕ → ℕ → ℕ → ℕ) where
  -- The size of `int32_t *` is that of a 64-bit kernel.
  abbrev pub wr_value : ℕ
  wr_value = iow b'a' b'a' 8

  abbrev pub rd_value : ℕ
  rd_value = ior b'a' b'b' 8

  unfoldable pub etx_ioctl : ℕ → ℕ → K Globals ℤ
  unfolding int32
  etx_ioctl cmd arg =
      if cmd == wr_value
      then (do
        r ← invoke (copy_from_user arg 4)
        g ← get
        put (record g { value = overlay r.bytes g.value })
        if is_nonzero r.code then (do pr_err "Data Write : Err!\n"; pure tt) else pure tt
        g' ← get
        invoke (printk info "Value = %d\n" (int32 g'.value ∷ []))
        pure (pos 0))
      else if cmd == rd_value
      then (do
        g ← get
        r ← invoke (copy_to_user arg g.value)
        if is_nonzero r.code then (do pr_err "Data Read : Err!\n"; pure tt) else pure tt
        pure (pos 0))
      else (do pr_info "Default\n"; pure (pos 0))

-- The entries of `fops`, with what they are given.
pub data Operation : Type 0 where
  open_file release_file : Operation
  read_file write_file : ℕ → Operation
  ioctl : ℕ → ℕ → Operation

unfoldable pub fops : (iow ior : ℕ → ℕ → ℕ → ℕ) → Operation → K Globals ℤ
unfolding etx_open etx_release etx_read etx_write etx_ioctl
fops iow ior open_file = etx_open
fops iow ior release_file = etx_release
fops iow ior (read_file len) = etx_read len
fops iow ior (write_file len) = etx_write len
fops iow ior (ioctl cmd arg) = etx_ioctl iow ior cmd arg

-- `r_class:` and `r_device:` of `etx_driver_init`.
unfoldable pub r_class : K Globals ℤ
r_class = do g ← get; invoke (unregister_chrdev_region g.dev 1); pure (negsuc 0)

unfoldable pub r_device : K Globals ℤ
unfolding r_class
r_device = do g ← get; invoke (class_destroy g.dev_class); r_class

-- The rest of `etx_driver_init` from `class_create` on.
unfoldable pub create_class : K Globals ℤ
unfolding r_class r_device
create_class = do
  g ← get
  class ← invoke (class_create "etx_class")
  put (record g { dev_class = class.ptr })
  if is_err class.ptr then (do pr_err "Cannot create the struct class\n"; r_class) else do
    node ← invoke (device_create class.ptr g.dev "etx_device")
    if is_err node.ptr
        then (do pr_err "Cannot create the Device 1\n"; r_device)
        else do pr_info "Device Driver Insert...Done!!!\n"; pure (pos 0)

-- The part of `etx_driver_init` between: the character device.
unfoldable pub add_cdev : K Globals ℤ
unfolding r_class
add_cdev = do
  g ← get
  invoke (cdev_init static_cdev)
  added ← invoke (cdev_add static_cdev g.dev 1)
  if is_neg added.code
      then (do pr_err "Cannot add the device to the system\n"; r_class)
      else create_class

unfoldable pub etx_driver_init : K Globals ℤ
etx_driver_init = do
  ret ← invoke (alloc_chrdev_region 0 1 "etx_Dev")
  if is_neg ret.code then (do pr_err "Cannot allocate major number\n"; pure (negsuc 0)) else do
    g ← get
    put (record g { dev = ret.num })
    ma ← invoke (major ret.num)
    mi ← invoke (minor ret.num)
    invoke (printk info "Major = %d Minor = %d \n" (pos ma.num ∷ pos mi.num ∷ []))
    add_cdev

unfoldable pub etx_driver_exit : K Globals (Unit {0})
etx_driver_exit = do
  g ← get
  invoke (device_destroy g.dev_class g.dev)
  invoke (class_destroy g.dev_class)
  invoke (cdev_del static_cdev)
  invoke (unregister_chrdev_region g.dev 1)
  pr_info "Device Driver Remove...Done!!!\n"
  pure tt

-- What the loaded module holds.
abbrev pub owns : Globals → List Resource
owns g =
    resource device g.dev
    ∷ resource Kind.dev_class (id_of g.dev_class)
    ∷ resource cdev_added 0
    ∷ resource region g.dev
    ∷ []
