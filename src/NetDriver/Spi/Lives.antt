-- ===== src/NetDriver/Spi/Lives.antt =====
-- The lives of the SPI network driver: each packet that it is given to transmit stays in memory.
use linux_device_drivers.Base.{
  ℕ, suc, ℤ, ◌≡◌, String, Bool, true, false, not, some, refl, ◌==◌, List, [], ◌∷◌, arith, is_neg,
  length-take_of_le, if◌then◌else◌,
}
use linux_device_drivers.Machine.{
  null, St, Env, Log, Reply, Returns, Returns-IfReturns, pure, invoke, after, ◌>>=◌,
}
use linux_device_drivers.Machine.Resources.{Resource, resource, net_device, skb, memory, held}
use linux_device_drivers.Machine.Resources.Tally.{count, Erased}
use linux_device_drivers.Kernel.{Call, K, kernel_tracked, dev_alloc_skb, is_null}
use linux_device_drivers.Kernel.Lifecycle.{Driver, in_memory, Life}
use linux_device_drivers.Kernel.Replies.{NullOrAddress}
use linux_device_drivers.NetDriver.Counts.{Lists, Life-CountsOf}
use linux_device_drivers.NetDriver.Spi.{
  Globals, open_device, stop_device, transmit, my_netdev_init, my_netdev_exit, my_netdev_ops, owns,
  net_rx_drop, packet_size,
}
use linux_device_drivers.NetDriver.Spi.Packets.{transfer, Fills}

-- What the network layer asks of the loaded module.
pub data Request : Type 0 where
  up down : Request
  send : List ℕ → String → Request

-- The size of a packet from the network layer: `mtu` of `my_netdev`.
abbrev pub mtu : ℕ
mtu = 1500

-- The network layer makes a packet and hands it to the driver.
unfoldable pub serve : Request → K Globals ℤ
unfolding my_netdev_ops
serve up = my_netdev_ops open_device
serve down = my_netdev_ops stop_device
serve (send dev_addr source_ip) = do
  given ← invoke (dev_alloc_skb mtu)
  if is_null given.ptr
      then pure net_rx_drop
      else my_netdev_ops (transmit dev_addr source_ip given.ptr)

abbrev pub net_module : Driver Globals Request
net_module = record {
  statics = record { my_spi_dev = null };
  init = my_netdev_init;
  exit = my_netdev_exit;
  operation = serve;
  owns = owns;
}

-- How many packets the network layer has handed over.
abbrev pub handed : Call → Reply → ℕ → ℕ
handed (dev_alloc_skb n) r older =
    if n == mtu then (if is_null r.ptr then older else suc older) else older
handed _ r older = older

unfoldable pub packets : Log Call → ℕ
packets [] = 0
packets (e ∷ l) = handed e.call e.reply (packets l)

-- What is held in each phase, whatever its order.
abbrev pub Counts : Bool → St Call Globals → Type 0
Counts loaded s = Lists loaded (packets s.log) (held s.log)

-- What the calls promise by their documentation.
pub record IsSound (env : Env Call) : Type 0 where
  pub transfers : NullOrAddress transfer env
  pub allocates : (n : ℕ) → NullOrAddress (dev_alloc_skb n) env
  pub fills : Fills env

module _ (env : Env Call) (s : St Call Globals) (things : List Resource)
    (all : held s.log ≡ some things) where
  init-Lists :
      Lists false (packets s.log) (some things)
      → Returns (λ r. Counts (not (is_neg r))) (my_netdev_init env s)
  unfolding my_netdev_init held packets count
  init-Lists c = ground arith

  exit-Lists :
      (rest : List Resource)
      → Erased (resource net_device 0) things rest
      → Lists true (packets s.log) (some things)
      → Returns (λ _. Counts false) (my_netdev_exit env s)
  unfolding my_netdev_exit held packets
  exit-Lists rest e c =
      ground (arith, e.erased, e.one_less, e.others skb refl, e.others memory refl)

  serve-Lists :
      (q : Request)
      → IsSound env
      → Lists true (packets s.log) (some things)
      → Returns (λ _. Counts true) (serve q env s)
  unfolding serve held packets count
  serve-Lists up sound c = ground arith
  serve-Lists down sound c = ground arith
  serve-Lists (send dev_addr source_ip) sound c =
      let given : St Call Globals = after env (dev_alloc_skb mtu) s in
      let filled : St Call Globals = after env transfer given in
      ground (
        arith,
        sound.allocates mtu s.log,
        sound.transfers given.log,
        sound.fills given.log,
        sound.allocates packet_size filled.log,
        length-take_of_le 4 (env given.log transfer).bytes,
      )

-- In every life of the module, with its device opened and stopped and packets sent in any order, on a
-- kernel whose calls return NULL or an address where they are documented to and whose transfers fill
-- their buffers: if the counts are right at its start, the module holds its registration exactly while
-- it is loaded, no memory, and as many packets as it was handed to send.
pub net_module-Counts :
    (env : Env Call) (start : St Call Globals) (loaded : Bool) (s : St Call Globals)
    → IsSound env
    → Counts false start
    → Life net_module env start loaded s
    → Counts loaded s
net_module-Counts env start loaded s sound h life =
    Life-CountsOf net_module packets env
      (λ t things all. init-Lists env (in_memory net_module t) things all)
      (λ t things rest all. exit-Lists env t things all rest)
      (λ q t things all l.
        Returns-IfReturns (λ _. Counts true) (serve q env t)
          (serve-Lists env t things all q sound l))
      h life
