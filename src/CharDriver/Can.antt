-- ===== src/CharDriver/Can.antt =====
-- MyCanDriver.c: a character device with a fixed device number.
pub mod Lifecycle
use linux_device_drivers.Base.{ℕ, ℤ, pos, List, [], ◌∷◌, ssize, is_neg, if◌then◌else◌}
use linux_device_drivers.Machine.{pure, ◌>>=◌, ◌>>◌, invoke, get, put}
use linux_device_drivers.Machine.Resources.{Resource, resource, region, cdev_added}
use linux_device_drivers.Kernel.{
  K, mkdev, register_chrdev_region, unregister_chrdev_region, cdev_init, cdev_add, cdev_del,
  static_cdev, pr_info, pr_err, FileOp, open_file, release_file, read_file, write_file,
}
use linux_device_drivers.Kernel.Lifecycle.{Driver}

-- `static dev_t dev`
pub record Globals : Type 0 where
  pub dev : ℕ

abbrev pub major_num : ℕ
major_num = 250

abbrev pub minor_num : ℕ
minor_num = 0

abbrev pub num_minors : ℕ
num_minors = 1

unfoldable pub can_open : K Globals ℤ
can_open = do pr_info "CAN device opened\n"; pure (pos 0)

unfoldable pub can_release : K Globals ℤ
can_release = do pr_info "CAN device closed\n"; pure (pos 0)

unfoldable pub can_read : ℕ → K Globals ℤ
can_read len = pure (pos 0)

unfoldable pub can_write : ℕ → K Globals ℤ
can_write len = pure (ssize len)

-- The table of file operations.
unfoldable pub can_fops : FileOp → K Globals ℤ
unfolding can_open can_release can_read can_write
can_fops open_file = can_open
can_fops release_file = can_release
can_fops (read_file len) = can_read len
can_fops (write_file len) = can_write len

unfoldable pub can_init : K Globals ℤ
can_init = do
  d ← invoke (mkdev major_num minor_num)
  put (record { dev = d.num })
  ret ← invoke (register_chrdev_region d.num num_minors "mycandevice")
  if is_neg ret.code then (do pr_err "Failed to register device\n"; pure ret.code) else do
    invoke (cdev_init static_cdev)
    ret ← invoke (cdev_add static_cdev d.num num_minors)
    if is_neg ret.code
        then (do
          invoke (unregister_chrdev_region d.num num_minors)
          pr_err "Failed to add device\n"
          pure ret.code)
        else do pr_info "CAN device driver initialized\n"; pure (pos 0)

unfoldable pub can_exit : K Globals (Unit {0})
can_exit = do
  g ← get
  invoke (cdev_del static_cdev)
  invoke (unregister_chrdev_region g.dev num_minors)
  pr_info "CAN device driver exited\n"
  pure tt

-- What the loaded module holds.
abbrev pub owns : Globals → List Resource
owns g = resource cdev_added 0 ∷ resource region g.dev ∷ []

abbrev pub can_driver : Driver Globals FileOp
can_driver = record {
  statics = record { dev = 0 };
  init = can_init;
  exit = can_exit;
  operation = can_fops;
  owns = owns;
}
