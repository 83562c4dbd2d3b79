-- ===== src/CharDriver/I2c/Shared.antt =====
-- What the I2C driver takes and gives back in a kernel where other modules hold things too.
use linux_device_drivers.Base.{ℕ, ◌≡◌, false, ◌∷◌, arith}
use linux_device_drivers.Machine.{Ptr, Env, Log, after}
use linux_device_drivers.Machine.Resources.{Kind, resource, region, device, bus_driver, held}
use linux_device_drivers.Kernel.{
  Call, kernel_tracked, device_create, is_err, id_of, i2c, add_driver, alloc_chrdev_region,
  class_create,
}
use linux_device_drivers.Kernel.Together.{IsFramed, nothing_left}
use linux_device_drivers.Kernel.Together.Exit.{give_back, erase_if_held_lem}
use linux_device_drivers.CharDriver.I2c.{
  i2c_char_driver, i2c_char_driver_init, i2c_char_driver_exit,
}
use linux_device_drivers.CharDriver.I2c.Lives.{i2c_module}

-- The kernel makes the device node whenever it is asked to. The driver does not check it, and gives
-- back the node of its number when it is removed.
abbrev pub MakesNode : Env Call → Type 0
MakesNode env =
    (l : Log Call) (class : Ptr) (dev : ℕ)
    → is_err (env l (device_create class dev "i2c_char_driver")).ptr ≡ false

pub i2c-IsFramed : (env : Env Call) → MakesNode env → IsFramed i2c_module nothing_left env
unfolding i2c_char_driver i2c_char_driver_init i2c_char_driver_exit held
i2c-IsFramed env makes = record {
  init_adds = λ s things h.
      let registered = after env (add_driver i2c "i2c_char_driver") s in
      let number : Call = alloc_chrdev_region 0 1 "i2c_char_driver" in
      let numbered = after env number registered in
      let class : Call = class_create "i2c_char_driver" in
      let classed = after env class numbered in
      ground
        (arith, makes classed.log (env numbered.log class).ptr (env registered.log number).num);
  exit_removes = λ s things rest h alike.
      let g = s.globals in
      let node = resource device g.dev_num in
      let class = resource Kind.dev_class (id_of g.dev_class) in
      let number = resource region g.dev_num in
      let driver = resource bus_driver 0 in
      let (xs, one, left) = give_back node things (class ∷ number ∷ driver ∷ rest) alike in
      let (ys, two, left2) = give_back class xs (number ∷ driver ∷ rest) left in
      let (zs, three, left3) = give_back number ys (driver ∷ rest) left2 in
      let (ws, four, left4) = give_back driver zs rest left3 in
      let removed = erase_if_held_lem node things xs one in (ws, ground arith, left4);
  operation_keeps = λ op s things h. ground arith;
}
