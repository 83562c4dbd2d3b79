-- ===== src/CharDriver/Esp32.antt =====
-- MyWi-fiDriver.c: the character device of an ESP32, with a device class and a device node.
pub mod Lifecycle
use linux_device_drivers.Base.{ℕ, ℤ, pos, List, [], ◌∷◌, is_neg, if◌then◌else◌}
use linux_device_drivers.Machine.{Ptr, null, pure, ◌>>=◌, ◌>>◌, invoke, get, put}
use linux_device_drivers.Machine.Resources.{
  Resource, resource, region, dev_class, device, cdev_added,
}
use linux_device_drivers.Kernel.{
  K, alloc_chrdev_region, unregister_chrdev_region, class_create, class_destroy, device_create,
  device_destroy, cdev_init, cdev_add, cdev_del, static_cdev, is_err, ptr_err, id_of, pr_info,
  pr_err,
}
use linux_device_drivers.Kernel.Lifecycle.{Driver}

-- The static variables. The file uses `cdev` and does not declare it: it is read as a static
-- `struct cdev`, as in the other drivers.
pub record Globals : Type 0 where
  pub dev_num : ℕ
  pub esp32_class : Ptr
  pub esp32_device : Ptr

-- The entries of `esp32_fops`.
pub data Operation : Type 0 where
  open_file release_file : Operation

unfoldable pub esp32_open : K Globals ℤ
esp32_open = do pr_info "Opened /dev/myWi-Fi device\n"; pure (pos 0)

unfoldable pub esp32_release : K Globals ℤ
esp32_release = do pr_info "Closed /dev/my-Wi-Fi device\n"; pure (pos 0)

unfoldable pub esp32_fops : Operation → K Globals ℤ
unfolding esp32_open esp32_release
esp32_fops open_file = esp32_open
esp32_fops release_file = esp32_release

-- The last step of `esp32_init`, from `cdev_init` on.
unfoldable pub register_operations : K Globals ℤ
register_operations = do
  g ← get
  invoke (cdev_init static_cdev)
  ret ← invoke (cdev_add static_cdev g.dev_num 1)
  if is_neg ret.code
      then (do
        pr_err "Failed to register file operations\n"
        invoke (device_destroy g.esp32_class g.dev_num)
        invoke (class_destroy g.esp32_class)
        invoke (unregister_chrdev_region g.dev_num 1)
        pure ret.code)
      else do pr_info "ESP32 Wi-Fi module initialized\n"; pure (pos 0)

-- The step before it, from `device_create` on.
unfoldable pub create_device : K Globals ℤ
unfolding register_operations
create_device = do
  g ← get
  node ← invoke (device_create g.esp32_class g.dev_num "esp32_wifi")
  put (record g { esp32_device = node.ptr })
  if is_err node.ptr
      then (do
        pr_err "Failed to create device\n"
        invoke (class_destroy g.esp32_class)
        invoke (unregister_chrdev_region g.dev_num 1)
        pure (ptr_err node.ptr))
      else register_operations

unfoldable pub esp32_init : K Globals ℤ
unfolding create_device
esp32_init = do
  ret ← invoke (alloc_chrdev_region 0 1 "esp32_wifi")
  if is_neg ret.code then (do pr_err "Failed to allocate device number\n"; pure ret.code) else do
    g ← get
    class ← invoke (class_create "esp32_wifi")
    put (record g { dev_num = ret.num; esp32_class = class.ptr })
    if is_err class.ptr
        then (do
          pr_err "Failed to create device class\n"
          invoke (unregister_chrdev_region ret.num 1)
          pure (ptr_err class.ptr))
        else create_device

unfoldable pub esp32_exit : K Globals (Unit {0})
esp32_exit = do
  g ← get
  invoke (cdev_del static_cdev)
  invoke (device_destroy g.esp32_class g.dev_num)
  invoke (class_destroy g.esp32_class)
  invoke (unregister_chrdev_region g.dev_num 1)
  pr_info "ESP32 Wi-Fi module removed\n"
  pure tt

-- What the loaded module holds.
abbrev pub owns : Globals → List Resource
owns g =
    resource cdev_added 0
    ∷ resource device g.dev_num
    ∷ resource dev_class (id_of g.esp32_class)
    ∷ resource region g.dev_num
    ∷ []

abbrev pub esp32_driver : Driver Globals Operation
esp32_driver = record {
  statics = record { dev_num = 0; esp32_class = null; esp32_device = null };
  init = esp32_init;
  exit = esp32_exit;
  operation = esp32_fops;
  owns = owns;
}
