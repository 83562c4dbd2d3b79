-- ===== src/CharDriver/I2c.antt =====
-- I2c_driver_test.c: an I2C driver with a character device, a class and a device node.
pub mod Lifecycle
pub mod Lives
pub mod Shared
use linux_device_drivers.Base.{
  ℕ, ℤ, pos, ssize, Bool, true, false, List, [], ◌∷◌, is_neg, if◌then◌else◌,
}
use linux_device_drivers.Machine.{Ptr, pure, ◌>>=◌, ◌>>◌, invoke, get, put}
use linux_device_drivers.Machine.Resources.{Resource, resource, Kind, region, device, bus_driver}
use linux_device_drivers.Kernel.{
  K, i2c, add_driver, del_driver, alloc_chrdev_region, unregister_chrdev_region, class_create,
  class_destroy, device_create, device_destroy, is_err, ptr_err, id_of, pr_info, pr_err, FileOp,
  open_file, release_file, read_file, write_file,
}

pub record Globals : Type 0 where
  pub i2c_client : Ptr
  pub dev_class : Ptr
  pub dev_num : ℕ

-- What the kernel asks of the driver: a file operation, or to take or give up a client.
pub data Operation : Type 0 where
  file : FileOp → Operation
  probe remove : Ptr → Operation

unfoldable pub i2c_char_driver_open : K Globals ℤ
i2c_char_driver_open = do pr_info "I2C char driver opened\n"; pure (pos 0)

unfoldable pub i2c_char_driver_release : K Globals ℤ
i2c_char_driver_release = do pr_info "I2C char driver closed\n"; pure (pos 0)

unfoldable pub i2c_char_driver_read : ℕ → K Globals ℤ
i2c_char_driver_read len = pure (pos 0)

unfoldable pub i2c_char_driver_write : ℕ → K Globals ℤ
i2c_char_driver_write len = pure (ssize len)

unfoldable pub i2c_char_driver_fops : FileOp → K Globals ℤ
unfolding i2c_char_driver_open i2c_char_driver_release i2c_char_driver_read i2c_char_driver_write
i2c_char_driver_fops open_file = i2c_char_driver_open
i2c_char_driver_fops release_file = i2c_char_driver_release
i2c_char_driver_fops (read_file len) = i2c_char_driver_read len
i2c_char_driver_fops (write_file len) = i2c_char_driver_write len

unfoldable pub i2c_char_driver_probe : Ptr → K Globals ℤ
i2c_char_driver_probe client = do
  pr_info "I2C char driver probed\n"
  g ← get
  put (record g { i2c_client = client })
  pure (pos 0)

unfoldable pub i2c_char_driver_remove : Ptr → K Globals ℤ
i2c_char_driver_remove client = do pr_info "I2C char driver removed\n"; pure (pos 0)

-- The tables of file operations and of driver callbacks.
unfoldable pub i2c_char_driver : Operation → K Globals ℤ
unfolding i2c_char_driver_fops i2c_char_driver_probe i2c_char_driver_remove
i2c_char_driver (file op) = i2c_char_driver_fops op
i2c_char_driver (probe client) = i2c_char_driver_probe client
i2c_char_driver (remove client) = i2c_char_driver_remove client

unfoldable pub i2c_char_driver_init : K Globals ℤ
i2c_char_driver_init = do
  ret ← invoke (add_driver i2c "i2c_char_driver")
  if is_neg ret.code then (do pr_err "Failed to register I2C driver\n"; pure ret.code) else do
    ret ← invoke (alloc_chrdev_region 0 1 "i2c_char_driver")
    if is_neg ret.code
        then (do
          pr_err "Failed to allocate device number\n"
          invoke (del_driver i2c "i2c_char_driver")
          pure ret.code)
        else do
          g ← get
          class ← invoke (class_create "i2c_char_driver")
          put (record g { dev_num = ret.num; dev_class = class.ptr })
          if is_err class.ptr
              then (do
                invoke (unregister_chrdev_region ret.num 1)
                invoke (del_driver i2c "i2c_char_driver")
                pure (ptr_err class.ptr))
              else do
                invoke (device_create class.ptr ret.num "i2c_char_driver")
                pr_info "I2C char driver initialized\n"
                pure (pos 0)

unfoldable pub i2c_char_driver_exit : K Globals (Unit {0})
i2c_char_driver_exit = do
  g ← get
  invoke (device_destroy g.dev_class g.dev_num)
  invoke (class_destroy g.dev_class)
  invoke (unregister_chrdev_region g.dev_num 1)
  invoke (del_driver i2c "i2c_char_driver")
  pr_info "I2C char driver exited\n"
  pure tt

-- What the loaded module holds, with or without its device node.
abbrev pub owns : Bool → Globals → List Resource
owns node g =
    let frame : List Resource =
      resource Kind.dev_class (id_of g.dev_class)
      ∷ resource region g.dev_num
      ∷ resource bus_driver 0
      ∷ [] in
    if node then resource device g.dev_num ∷ frame else frame
