-- ===== src/CharDriver/SpiChar.antt =====
-- CharSpiKS.c: a character device that reads 16 bytes over SPI.
pub mod Lifecycle
pub mod Lives
pub mod Shared
pub mod Read
use linux_device_drivers.Base.{
  ℕ, ℤ, pos, neg, ssize, List, [], ◌∷◌, is_neg, is_nonzero, ltb, if◌then◌else◌, length, take,
}
use linux_device_drivers.Machine.{
  Ptr, Reply, pure, ◌>>=◌, ◌>>◌, invoke, get, put, crash, null_dereference, out_of_bounds,
}
use linux_device_drivers.Machine.Resources.{Resource, resource, region, cdev_object, cdev_added}
use linux_device_drivers.Kernel.{
  K, alloc_chrdev_region, unregister_chrdev_region, cdev_alloc, cdev_init, cdev_add, cdev_del,
  kobject_put, spi_bus_find_device, spi_transfer, copy_to_user, kfree, is_null, id_of, pr_err,
  dev_err,
}

-- `DATA_SIZE`. The file names the bus and the device `spi_bus_id` and `spi_device_id`, which it does
-- not declare; they are read as the macros SPI_BUS_ID and SPI_DEVICE_ID.
abbrev pub data_size : ℕ
data_size = 16

abbrev pub spi_bus_id : ℕ
spi_bus_id = 0

abbrev pub spi_device_id : ℕ
spi_device_id = 0

-- -EFAULT, -ENOMEM and -EOPNOTSUPP.
abbrev pub efault : ℤ
efault = neg 14

abbrev pub enomem : ℤ
enomem = neg 12

abbrev pub eopnotsupp : ℤ
eopnotsupp = neg 95

pub record Globals : Type 0 where
  pub dev_num : ℕ
  pub my_cdev : Ptr
  pub my_spi_dev : Ptr

-- `min(count, DATA_SIZE)`
abbrev pub at_most : ℕ → ℕ → ℕ
at_most a b = if ltb a b then a else b

-- The bytes that `copy_to_user` reads from a buffer of the kernel.
abbrev pub first_bytes : ℕ → List ℕ → K Globals (List ℕ)
first_bytes n buffer = if ltb (length buffer) n then crash out_of_bounds else pure (take n buffer)

-- `user_buf` is an address of the user's; the buffer behind `spi_data` is what the call wrote.
unfoldable pub spi_char_read : ℕ → ℕ → K Globals ℤ
spi_char_read user_buf requested = do
  spi_data ← invoke (spi_transfer spi_bus_id spi_device_id data_size)
  if is_null spi_data.ptr
      then (do invoke (dev_err "Failed to receive data from SPI device\n"); pure efault)
      else do
        let count = at_most requested data_size
        bytes ← first_bytes count spi_data.bytes
        left ← invoke (copy_to_user user_buf bytes)
        if is_nonzero left.code
            then (do invoke (kfree spi_data.ptr); pure efault)
            else do invoke (kfree spi_data.ptr); pure (ssize count)

-- `err_free_chrdev:`
unfoldable pub err_free_chrdev : ℤ → K Globals ℤ
err_free_chrdev ret = do g ← get; invoke (unregister_chrdev_region g.dev_num 1); pure ret

-- The message of a failed search for the device is addressed through `my_cdev->dev`.
unfoldable pub report_missing_device : K Globals (Unit {0})
report_missing_device = do
  g ← get
  if is_null g.my_cdev
      then crash null_dereference
      else do invoke (dev_err "Failed to find SPI device\n"); pure tt

-- The rest of `spi_char_init` from `cdev_alloc` on.
unfoldable pub register_cdev : K Globals ℤ
unfolding err_free_chrdev
register_cdev = do
  g ← get
  cdev ← invoke cdev_alloc
  put (record g { my_cdev = cdev.ptr })
  if is_null cdev.ptr then err_free_chrdev enomem else do
    invoke (cdev_init cdev.ptr)
    ret ← invoke (cdev_add cdev.ptr g.dev_num 1)
    if is_neg ret.code
        then (do invoke (kobject_put cdev.ptr); err_free_chrdev ret.code)
        else pure (pos 0)

unfoldable pub spi_char_init : K Globals ℤ
unfolding err_free_chrdev report_missing_device register_cdev
spi_char_init = do
  ret ← invoke (alloc_chrdev_region 0 1 "spi_char_dev")
  if is_neg ret.code then pure ret.code else do
    g ← get
    found ← invoke (spi_bus_find_device spi_bus_id spi_device_id)
    put (record g { dev_num = ret.num; my_spi_dev = found.ptr })
    if is_null found.ptr
        then (do report_missing_device; err_free_chrdev eopnotsupp)
        else register_cdev

unfoldable pub spi_char_exit : K Globals (Unit {0})
spi_char_exit = do
  g ← get
  invoke (cdev_del g.my_cdev)
  invoke (unregister_chrdev_region g.dev_num 1)
  pure tt

-- What the loaded module holds; `my_cdev` is then the address of a `struct cdev`.
abbrev pub owns : Globals → List Resource
owns g =
    resource cdev_added (id_of g.my_cdev)
    ∷ resource cdev_object (id_of g.my_cdev)
    ∷ resource region g.dev_num
    ∷ []
