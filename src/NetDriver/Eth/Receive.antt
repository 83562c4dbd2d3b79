-- ===== src/NetDriver/Eth/Receive.antt =====
-- What `my_netdev_rx` returns and frees, and the packet that it reads beyond.
use linux_device_drivers.Base.{
  ℤ, true, false, ◌≡◌, ◌⊎◌, ◌<◌, ◌≤◌, some, List, ◌∷◌, arith, length, get_or, ◌==◌,
}
use linux_device_drivers.Machine.{St, Env, Outcome, ok, exited, fault, out_of_bounds, Faults}
use linux_device_drivers.Machine.Resources.{Resource, resource, skb, memory, nested}
use linux_device_drivers.Kernel.{Call, kernel_tracked, kmalloc, id_of, is_null}
use linux_device_drivers.Kernel.Replies.{NullOrAddress}
use linux_device_drivers.NetDriver.Eth.{
  Globals, SkBuff, my_netdev_rx, net_rx_success, net_rx_drop, ipproto_icmpv6,
}

-- How receiving a packet may end. `packet` is the resource that the caller hands over.
abbrev pub Ends :
    SkBuff → Env Call → St Call Globals → List Resource → Outcome Call Globals ℤ → Type 0
Ends p env s base (ok r t) =
    (nested t.log ≡ some base)
    × ((r ≡ net_rx_success)
          × (34 ≤ length p.bytes)
          × ((35 ≤ length p.bytes) ⊎ ((get_or p.bytes 23 0 == ipproto_icmpv6) ≡ false))
        ⊎ (r ≡ net_rx_drop)
          × ((length p.bytes < 34) ⊎ (is_null (env s.log (kmalloc (length p.bytes))).ptr ≡ true)))
Ends p env s base (exited z t) = ⊥
Ends p env s base (fault f t) =
    let buffer = (env s.log (kmalloc (length p.bytes))).ptr in
    (f ≡ out_of_bounds)
    × (length p.bytes ≡ 34)
    × (get_or p.bytes 23 0 ≡ ipproto_icmpv6)
    × (nested t.log ≡ some (resource memory (id_of buffer) ∷ resource skb (id_of p.address) ∷ base))

-- If `kmalloc` returns NULL or an address, and the packet is held at the start: `my_netdev_rx`
-- frees the packet, and the buffer that it allocates, once each on every path to a `return`. It
-- drops a packet that is too short for its two headers or finds no memory, and accepts any other.
-- But a packet of exactly 34 bytes that claims to hold ICMPv6 it never accepts: if there is memory
-- it reads the byte behind its buffer, and then still holds the buffer and the packet. It faults on
-- no other packet.
pub my_netdev_rx-Ends :
    (p : SkBuff) (env : Env Call) (s : St Call Globals) (base : List Resource)
    → NullOrAddress (kmalloc (length p.bytes)) env
    → nested s.log ≡ some (resource skb (id_of p.address) ∷ base)
    → Ends p env s base (my_netdev_rx p env s)
unfolding my_netdev_rx nested
my_netdev_rx-Ends p env s base valid h = ground (arith, valid s.log)

-- Every packet of 34 bytes that claims to hold ICMPv6 makes it read the byte behind its buffer, if
-- the buffer was had.
pub my_netdev_rx-out_of_bounds :
    (p : SkBuff) (env : Env Call) (s : St Call Globals)
    → length p.bytes ≡ 34
    → get_or p.bytes 23 0 ≡ ipproto_icmpv6
    → is_null (env s.log (kmalloc 34)).ptr ≡ false
    → Faults out_of_bounds (my_netdev_rx p env s)
unfolding my_netdev_rx nested
my_netdev_rx-out_of_bounds p env s short claims got = ground arith
