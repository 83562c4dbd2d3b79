-- ===== src/NetDriver/Eth/Lives.antt =====
-- The lives of the Ethernet driver: what it receives is freed, what it sends stays in memory.
use linux_device_drivers.Base.{
  ℕ, suc, ℤ, ◌≡◌, Bool, true, false, not, some, List, [], ◌∷◌, refl, arith, is_neg, length,
  if◌then◌else◌,
}
use linux_device_drivers.Machine.{
  Ptr, St, Env, Log, Reply, Returns, IfReturns, pure, invoke, after, ◌>>=◌,
}
use linux_device_drivers.Machine.Resources.{Resource, resource, net_device, skb, memory, held}
use linux_device_drivers.Machine.Resources.Tally.{count, Erased}
use linux_device_drivers.Kernel.{
  Call, K, kernel_tracked, dev_alloc_skb, kmalloc, is_null, netdev_gadgets_validate_headers,
}
use linux_device_drivers.Kernel.Lifecycle.{Driver, in_memory, Life}
use linux_device_drivers.Kernel.Replies.{NullOrAddress}
use linux_device_drivers.NetDriver.Counts.{Lists, Life-CountsOf}
use linux_device_drivers.NetDriver.Eth.{
  Globals, Operation, rx, tx, my_netdev_init, my_netdev_exit, my_netdev_ops, owns, net_rx_drop,
}

-- What the network layer asks of the loaded module: to take a packet that has come, or to send one.
pub data Request : Type 0 where
  receive send : List ℕ → Request

abbrev pub bytes_of : Request → List ℕ
bytes_of (receive bytes) = bytes
bytes_of (send bytes) = bytes

abbrev pub operation_of : Request → Ptr → Operation
operation_of (receive bytes) p = rx (record { address = p; bytes = bytes })
operation_of (send bytes) p = tx (record { address = p; bytes = bytes })

-- The network layer makes a packet of the bytes and hands it to the driver.
unfoldable pub serve : Request → K Globals ℤ
unfolding my_netdev_ops
serve q = do
  given ← invoke (dev_alloc_skb (length (bytes_of q)))
  if is_null given.ptr then pure net_rx_drop else my_netdev_ops (operation_of q given.ptr)

abbrev pub eth_module : Driver Globals Request
eth_module = record {
  statics = record { mtu = 0 };
  init = my_netdev_init;
  exit = my_netdev_exit;
  operation = serve;
  owns = owns;
}

-- How many packets to be sent have passed the check of their headers.
abbrev pub passed : Call → Reply → ℕ → ℕ
passed (netdev_gadgets_validate_headers _ _) r older = if is_neg r.code then older else suc older
passed _ r older = older

unfoldable pub packets : Log Call → ℕ
packets [] = 0
packets (e ∷ l) = passed e.call e.reply (packets l)

-- What is held in each phase, whatever its order.
abbrev pub Counts : Bool → St Call Globals → Type 0
Counts loaded s = Lists loaded (packets s.log) (held s.log)

-- What the calls promise by their documentation.
pub record IsSound (env : Env Call) : Type 0 where
  pub allocates : (n : ℕ) → NullOrAddress (dev_alloc_skb n) env
  pub memory : (n : ℕ) → NullOrAddress (kmalloc n) env

module _ (env : Env Call) (s : St Call Globals) (things : List Resource)
    (all : held s.log ≡ some things) where
  init-Lists :
      Lists false (packets s.log) (some things)
      → Returns (λ r. Counts (not (is_neg r))) (my_netdev_init env s)
  unfolding my_netdev_init held packets count
  init-Lists c = ground arith

  exit-Lists :
      (rest : List Resource)
      → Erased (resource net_device 0) things rest
      → Lists true (packets s.log) (some things)
      → Returns (λ _. Counts false) (my_netdev_exit env s)
  unfolding my_netdev_exit held packets
  exit-Lists rest e c =
      ground (arith, e.erased, e.one_less, e.others skb refl, e.others memory refl)

  serve-Lists :
      (q : Request)
      → IsSound env
      → Lists true (packets s.log) (some things)
      → IfReturns (λ _. Counts true) (serve q env s)
  unfolding serve held packets count
  serve-Lists (receive bytes) sound c = ground (
    arith,
    sound.allocates (length bytes) s.log,
    sound.memory (length bytes) (after env (dev_alloc_skb (length bytes)) s).log,
  )
  serve-Lists (send bytes) sound c = ground (arith, sound.allocates (length bytes) s.log)

-- In every life of the module, with packets received and sent in any order, on a kernel whose calls
-- return NULL or an address where they are documented to: if the counts are right at its start, the
-- module holds its registration exactly while it is loaded, no memory, and as many packets as it was
-- handed to send and had their headers accepted. A life ends where an operation faults.
pub eth_module-Counts :
    (env : Env Call) (start : St Call Globals) (loaded : Bool) (s : St Call Globals)
    → IsSound env
    → Counts false start
    → Life eth_module env start loaded s
    → Counts loaded s
eth_module-Counts env start loaded s sound h life =
    Life-CountsOf eth_module packets env
      (λ t things all. init-Lists env (in_memory eth_module t) things all)
      (λ t things rest all. exit-Lists env t things all rest)
      (λ q t things all. serve-Lists env t things all q sound) h life
