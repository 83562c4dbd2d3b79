-- ===== src/NetDriver/Spi/Shared.antt =====
-- What the SPI network driver takes and gives back in a kernel where other modules hold things too.
use linux_device_drivers.Base.{
  ◌≡◌, some, List, [], ◌∷◌, ◌++◌, arith, length-take_of_le, if◌then◌else◌, ◌==◌,
}
use linux_device_drivers.Machine.{Reply, St, Env, Log, IfReturns, after}
use linux_device_drivers.Machine.Resources.{Resource, resource, net_device, skb, held}
use linux_device_drivers.Kernel.{Call, kernel_tracked, dev_alloc_skb, id_of, is_null}
use linux_device_drivers.Kernel.Together.{IsFramed, Leaves}
use linux_device_drivers.Kernel.Together.Exit.{give_back}
use linux_device_drivers.NetDriver.Spi.{Globals, my_netdev_init, my_netdev_exit, owns, packet_size}
use linux_device_drivers.NetDriver.Spi.Packets.{transfer}
use linux_device_drivers.NetDriver.Spi.Lives.{
  Request, up, down, send, serve, mtu, net_module, IsSound,
}

-- The newest packet that the network layer has handed over.
abbrev pub newest : Call → Reply → List Resource → List Resource
newest (dev_alloc_skb n) r older =
    if n == mtu then (if is_null r.ptr then [] else resource skb (id_of r.ptr) ∷ []) else older
newest _ r older = older

unfoldable pub newest_packet : Log Call → List Resource
newest_packet [] = []
newest_packet (e ∷ l) = newest e.call e.reply (newest_packet l)

-- Every packet that it is asked to send stays.
abbrev pub kept_by : Request → Log Call → List Resource
kept_by (send dev_addr source_ip) l = newest_packet l
kept_by _ l = []

abbrev pub packets_left : Leaves Request
packets_left = record { failed_load = λ _. []; operated = kept_by }

serve-Keeps :
    (env : Env Call) (sound : IsSound env) (q : Request) (s : St Call Globals)
    (things : List Resource)
    → held s.log ≡ some things
    → IfReturns
        (λ _ t. (held t.log ≡ some (kept_by q t.log ++ things)) × (owns t.globals ≡ owns s.globals))
        (serve q env s)
unfolding serve held newest_packet
serve-Keeps env sound up s things h = ground arith
serve-Keeps env sound down s things h = ground arith
serve-Keeps env sound (send dev_addr source_ip) s things h =
    let given : St Call Globals = after env (dev_alloc_skb mtu) s in
    let filled : St Call Globals = after env transfer given in
    ground (
      arith,
      sound.allocates mtu s.log,
      sound.transfers given.log,
      sound.fills given.log,
      sound.allocates packet_size filled.log,
      length-take_of_le 4 (env given.log transfer).bytes,
    )

pub net-IsFramed : (env : Env Call) → IsSound env → IsFramed net_module packets_left env
unfolding my_netdev_init my_netdev_exit held
net-IsFramed env sound = record {
  init_adds = λ s things h. ground arith;
  exit_removes = λ s things rest h alike.
      let (ys, given, left) = give_back (resource net_device 0) things rest alike in
      (ys, ground arith, left);
  operation_keeps = serve-Keeps env sound;
}
