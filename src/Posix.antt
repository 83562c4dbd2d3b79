-- ===== src/Posix.antt =====
-- The functions of the C library, of BlueZ and of libnl that the user programs call, and what each
-- hands out or takes back by its documentation. Their bodies are not in the repository.
pub mod Ends
pub mod History
pub mod Replies
use linux_device_drivers.Base.{
  ℕ, suc, ℤ, pos, negsuc, Bool, true, false, String, Option, none, some, List, [], ◌∷◌, is_neg,
  if◌then◌else◌, c_string,
}
use linux_device_drivers.Machine.{
  Ptr, null, err_ptr, addr, Reply, M, pure, invoke, crash, out_of_bounds, ◌>>=◌, ◌>>◌,
}
use linux_device_drivers.Machine.Resources.{
  Kind, memory, descriptor, netlink_socket, netlink_cache, netlink_message, Resource, resource,
  Effect, neutral, acquire, release, Tracked,
}

-- `struct sockaddr_ll`, with the fields that are set to something else than 0.
pub record SockaddrLl : Type 0 where
  pub sll_halen : ℕ
  pub sll_addr : List ℕ
  pub sll_ifindex : ℕ

pub data Call : Type 0 where
  perror : String → Call
  fprintf_stderr : String → Call
  printf : String → List ℤ → Call
  printf_text : String → List ℤ → List ℕ → Call
  open_rdwr : String → Call
  socket : String → Call
  close : ℤ → Call
  ioctl : ℤ → String → Call
  ioctl_transfer : ℤ → List ℕ → ℕ → Call
  ioctl_i2c_slave : ℤ → ℕ → Call
  bind : ℤ → ℕ → Call
  write : ℤ → List ℕ → Call
  read : ℤ → ℕ → Call
  tcgetattr : ℤ → Call
  cfsetospeed_9600 : Call
  tcsetattr_now : ℤ → Call
  hci_get_route : Call
  hci_inquiry : ℤ → ℕ → ℕ → Call
  ba2str : Ptr → ℕ → Call
  free : Ptr → Call
  nl_socket_alloc : Call
  nl_socket_free : Ptr → Call
  genl_connect : Ptr → Call
  genl_ctrl_alloc_cache : Ptr → Call
  nlmsg_alloc : Call
  nlmsg_free : Ptr → Call
  genlmsg_put : Ptr → Ptr → Call
  nla_put_ifindex : Ptr → ℕ → Call
  if_nametoindex : String → Call
  nl_send_auto_complete : Ptr → Ptr → Call
  nl_recvmsgs : Ptr → Call
  malloc : ℕ → Call
  htons : ℕ → Call
  inet_addr : String → Call
  in_checksum : List ℕ → Call
  sendto : ℤ → List ℕ → SockaddrLl → Call
  recvfrom : ℤ → ℕ → Call
  inet_ntoa : ℕ → Call
  printf_texts : String → List (List ℕ) → Call
  sleep : ℕ → Call

-- Tells the objects of one kind apart.
abbrev pub id_of : Ptr → ℕ
id_of null = 0
id_of (err_ptr _) = 0
id_of (addr a) = suc a

-- A descriptor below zero reports a failure.
abbrev pub on_descriptor : ℤ → Effect
on_descriptor (pos n) = acquire (resource descriptor n)
on_descriptor (negsuc _) = neutral

abbrev pub descriptor_of : ℤ → List Resource
descriptor_of (pos n) = resource descriptor n ∷ []
descriptor_of (negsuc _) = []

abbrev pub on_address : Ptr → Kind → Effect
on_address (addr a) k = acquire (resource k (suc a))
on_address _ k = neutral

abbrev pub on_result : ℤ → Ptr → Kind → Effect
on_result z p k = if is_neg z then neutral else acquire (resource k (id_of p))

abbrev pub effect : Call → Reply → Effect
effect (open_rdwr _) r = on_descriptor r.code
effect (socket _) r = on_descriptor r.code
effect (close fd) r = release (descriptor_of fd)
effect (hci_inquiry _ _ _) r = on_result r.code r.ptr memory
effect (free p) r = release (resource memory (id_of p) ∷ [])
effect nl_socket_alloc r = on_address r.ptr netlink_socket
effect (nl_socket_free p) r = release (resource netlink_socket (id_of p) ∷ [])
effect (genl_ctrl_alloc_cache _) r = on_result r.code r.ptr netlink_cache
effect nlmsg_alloc r = on_address r.ptr netlink_message
effect (malloc _) r = on_address r.ptr memory
effect (nlmsg_free p) r = release (resource netlink_message (id_of p) ∷ [])
effect _ r = neutral

instance abbrev pub posix_tracked : Tracked Call
posix_tracked = record { effect = effect }

-- The programs have no static variables, but for one, which is passed on in the model.
abbrev pub P : Type 0 → Type 0
P A = M Call (Unit {0}) A

-- `!p`
abbrev pub is_null : Ptr → Bool
is_null null = true
is_null _ = false

abbrev pub is_err : Ptr → Bool
is_err (err_ptr _) = true
is_err _ = false

-- `printf` of a format with one `%s`, which reads the buffer up to a zero byte.
unfoldable pub print_string : String → List ℤ → List ℕ → P (Unit {0})
print_string format args buffer = elim (c_string buffer) [
  | none ↦ crash out_of_bounds
  | some text ↦ do invoke (printf_text format args text); pure tt
]
