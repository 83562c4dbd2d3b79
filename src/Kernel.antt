-- ===== src/Kernel.antt =====
-- The kernel's functions that the drivers call: their names and arguments, and what each hands out
-- or takes back by its documentation. Their bodies are not in the repository: an `Env` answers.
mod Types
pub mod History
pub mod Lifecycle
pub mod Replies
pub mod Together
pub use Types.*
use linux_device_drivers.Base.{
  ℕ, zero, suc, ℤ, pos, Bool, true, false, String, List, [], ◌∷◌, is_neg, is_nonzero, error_of,
  if◌then◌else◌, Option, some, none, negsuc,
}
use linux_device_drivers.Machine.{
  Log, Ptr, null, err_ptr, addr, Reply, M, invoke, ◌>>=◌, ◌>>◌, pure,
}
use linux_device_drivers.Machine.Resources.{
  Kind, region, cdev_object, cdev_added, dev_class, device, bus_driver, net_device, skb, memory,
  Resource, resource, Effect, neutral, acquire, release, release_if_held, Tracked,
}

pub data Call : Type 0 where
  printk : Level → String → List ℤ → Call
  dev_err : String → Call
  mkdev : ℕ → ℕ → Call
  major minor : ℕ → Call
  alloc_chrdev_region : ℕ → ℕ → String → Call
  register_chrdev_region : ℕ → ℕ → String → Call
  unregister_chrdev_region : ℕ → ℕ → Call
  cdev_init : Ptr → Call
  cdev_add : Ptr → ℕ → ℕ → Call
  cdev_del : Ptr → Call
  cdev_alloc : Call
  kobject_put : Ptr → Call
  class_create : String → Call
  class_destroy : Ptr → Call
  device_create : Ptr → ℕ → String → Call
  device_destroy : Ptr → ℕ → Call
  add_driver : Bus → String → Call
  del_driver : Bus → String → Call
  copy_from_user : ℕ → ℕ → Call
  copy_to_user : ℕ → List ℕ → Call
  spi_message_init : Call
  spi_message_add_tail : Transfer → Call
  spi_sync : Ptr → Call
  spi_bus_find_device : ℕ → ℕ → Call
  spi_transfer : ℕ → ℕ → ℕ → Call
  kfree : Ptr → Call
  interface_to_usbdev : Ptr → Call
  kmalloc : ℕ → Call
  dev_kfree_skb : Ptr → Call
  netdev_register : String → ℕ → Call
  netdev_unregister : String → Call
  netdev_gadgets_validate_headers : Ptr → String → Call
  register_netdev : String → Call
  unregister_netdev : String → Call
  spi_unregister_device : Ptr → Call
  dev_alloc_skb : ℕ → Call
  dev_queue_xmit : Ptr → Packet → Call
  htons : ℕ → Call
  inet_addr : String → Call
  in_checksum : IpHdr → Call
  tcp_v4_check : IpHdr → TcpHdr → List ℕ → ℕ → Call

-- `IS_ERR(p)`
abbrev pub is_err : Ptr → Bool
is_err (err_ptr _) = true
is_err _ = false

-- The address of a `struct cdev` that is a static variable.
abbrev pub static_cdev : Ptr
static_cdev = null

-- Tells the objects of one kind apart.
abbrev pub id_of : Ptr → ℕ
id_of null = 0
id_of (err_ptr _) = 0
id_of (addr a) = suc a

abbrev pub bus_id : Bus → ℕ
bus_id i2c = 0
bus_id spi = 1
bus_id usb = 2
bus_id uart = 3

-- A call that reports by a number below zero that it has failed.
abbrev pub on_success : ℤ → Resource → Effect
on_success z r = if is_neg z then neutral else acquire r

-- A call that reports by an error pointer that it has failed.
abbrev pub on_pointer : Ptr → Kind → Effect
on_pointer (err_ptr _) k = neutral
on_pointer null k = acquire (resource k 0)
on_pointer (addr a) k = acquire (resource k (suc a))

-- A call that reports by NULL that it has failed.
abbrev pub on_address : Ptr → Kind → Effect
on_address (addr a) k = acquire (resource k (suc a))
on_address _ k = neutral

abbrev pub one : Kind → ℕ → Effect
one k n = release (resource k n ∷ [])

-- `cdev_del` also drops the last reference to a `struct cdev` that `cdev_alloc` made.
abbrev pub cdev_del_effect : Ptr → Effect
cdev_del_effect (addr a) = release (resource cdev_added (suc a) ∷ resource cdev_object (suc a) ∷ [])
cdev_del_effect _ = one cdev_added 0

abbrev pub effect : Call → Reply → Effect
effect (alloc_chrdev_region _ _ _) r = on_success r.code (resource region r.num)
effect (register_chrdev_region dev _ _) r = on_success r.code (resource region dev)
effect (unregister_chrdev_region dev _) r = one region dev
effect (cdev_add p _ _) r = on_success r.code (resource cdev_added (id_of p))
effect (cdev_del p) r = cdev_del_effect p
effect cdev_alloc r = on_address r.ptr cdev_object
effect (kobject_put p) r = one cdev_object (id_of p)
effect (class_create _) r = on_pointer r.ptr dev_class
effect (class_destroy p) r = one dev_class (id_of p)
effect (device_create _ dev _) r = if is_err r.ptr then neutral else acquire (resource device dev)
effect (device_destroy _ dev) r = release_if_held (resource device dev)
effect (add_driver b _) r = on_success r.code (resource bus_driver (bus_id b))
effect (del_driver b _) r = one bus_driver (bus_id b)
effect (spi_transfer _ _ _) r = on_address r.ptr memory
effect (kfree p) r = one memory (id_of p)
effect (kmalloc _) r = on_address r.ptr memory
effect (dev_kfree_skb p) r = one skb (id_of p)
effect (netdev_register _ _) r =
    if is_nonzero r.code then neutral else acquire (resource net_device 0)
effect (netdev_unregister _) r = one net_device 0
effect (register_netdev _) r = on_success r.code (resource net_device 0)
effect (unregister_netdev _) r = one net_device 0
effect (dev_alloc_skb _) r = on_address r.ptr skb
effect (dev_queue_xmit p _) r = one skb (id_of p)
effect _ r = neutral

instance abbrev pub kernel_tracked : Tracked Call
kernel_tracked = record { effect = effect }

abbrev pub K : Type 0 → Type 0 → Type 0
K G A = M Call G A

-- `!p`
abbrev pub is_null : Ptr → Bool
is_null null = true
is_null _ = false

-- `PTR_ERR(p)`
abbrev pub ptr_err : Ptr → ℤ
ptr_err (err_ptr n) = negsuc n
ptr_err _ = pos 0

abbrev pub pr_info : {G : Type 0} → String → K G Reply
pr_info m = invoke (printk info m [])

abbrev pub pr_err : {G : Type 0} → String → K G Reply
pr_err m = invoke (printk error m [])
