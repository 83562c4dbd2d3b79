-- ===== src/NetDriver/Eth/Shared.antt =====
-- What the Ethernet driver takes and gives back in a kernel where other modules hold things too.
use linux_device_drivers.Base.{◌≡◌, is_neg, if◌then◌else◌, some, List, [], ◌∷◌, ◌++◌, arith, length}
use linux_device_drivers.Machine.{Reply, St, Env, Log, IfReturns, after}
use linux_device_drivers.Machine.Resources.{Resource, resource, net_device, skb, held}
use linux_device_drivers.Kernel.{
  Call, kernel_tracked, dev_alloc_skb, netdev_gadgets_validate_headers, id_of,
}
use linux_device_drivers.Kernel.Together.{IsFramed, Leaves}
use linux_device_drivers.Kernel.Together.Exit.{give_back}
use linux_device_drivers.NetDriver.Eth.{Globals, my_netdev_init, my_netdev_exit, owns}
use linux_device_drivers.NetDriver.Eth.Lives.{Request, receive, send, serve, eth_module, IsSound}

-- The newest packet of the network layer, once its headers have been accepted.
abbrev pub accept : Call → Reply → List Resource → List Resource
accept (dev_alloc_skb _) r older = []
accept (netdev_gadgets_validate_headers p _) r older =
    if is_neg r.code then [] else resource skb (id_of p) ∷ []
accept _ r older = older

unfoldable pub accepted : Log Call → List Resource
accepted [] = []
accepted (e ∷ l) = accept e.call e.reply (accepted l)

-- A packet that is received is freed; one to be sent stays if its headers were accepted.
abbrev pub kept_by : Request → Log Call → List Resource
kept_by (receive bytes) l = []
kept_by (send bytes) l = accepted l

abbrev pub packets_left : Leaves Request
packets_left = record { failed_load = λ _. []; operated = kept_by }

serve-Keeps :
    (env : Env Call) (sound : IsSound env) (q : Request) (s : St Call Globals)
    (things : List Resource)
    → held s.log ≡ some things
    → IfReturns
        (λ _ t. (held t.log ≡ some (kept_by q t.log ++ things)) × (owns t.globals ≡ owns s.globals))
        (serve q env s)
unfolding serve held accepted
serve-Keeps env sound (receive bytes) s things h = ground (
  arith,
  sound.allocates (length bytes) s.log,
  sound.memory (length bytes) (after env (dev_alloc_skb (length bytes)) s).log,
)
serve-Keeps env sound (send bytes) s things h = ground (arith, sound.allocates (length bytes) s.log)

pub eth-IsFramed : (env : Env Call) → IsSound env → IsFramed eth_module packets_left env
unfolding my_netdev_init my_netdev_exit held
eth-IsFramed env sound = record {
  init_adds = λ s things h. ground arith;
  exit_removes = λ s things rest h alike.
      let (ys, given, left) = give_back (resource net_device 0) things rest alike in
      (ys, ground arith, left);
  operation_keeps = serve-Keeps env sound;
}
