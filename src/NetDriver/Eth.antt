-- ===== src/NetDriver/Eth.antt =====
-- net_eth.c: a network driver that prints the packets it receives and edits those it sends.
pub mod Receive
pub mod Send
pub mod Forward
pub mod Arrival
pub mod Traffic
pub mod Lives
pub mod Shared
use linux_device_drivers.Base.{
  ℕ, ◌+◌, ◌-◌, ◌%◌, ℤ, pos, negsuc, Bool, true, false, Option, none, some, List, [], ◌∷◌, ◌++◌, map,
  is_neg, is_nonzero, ltb, ◌==◌, if◌then◌else◌, length,
}
use linux_device_drivers.Machine.{Ptr, pure, ◌>>=◌, ◌>>◌, invoke, get, put}
use linux_device_drivers.Machine.Buffer.{read_byte, read_bytes, write_byte, write_bytes}
use linux_device_drivers.Machine.Resources.{Resource, resource, net_device}
use linux_device_drivers.Kernel.{
  K, printk, info, kmalloc, kfree, dev_kfree_skb, netdev_register, netdev_unregister,
  netdev_gadgets_validate_headers, is_null, pr_info, pr_err,
}

-- The one field of `my_netdev` that changes.
pub record Globals : Type 0 where
  pub mtu : ℕ

abbrev pub my_netdev_mac : List ℕ
my_netdev_mac = 0x00 ∷ 0x0c ∷ 0x22 ∷ 0x44 ∷ 0xaa ∷ 0xbb ∷ []

-- The sizes of `struct ethhdr` and `struct iphdr`, and what the kernel's headers define.
abbrev pub sizeof_ethhdr : ℕ
sizeof_ethhdr = 14

abbrev pub sizeof_iphdr : ℕ
sizeof_iphdr = 20

abbrev pub net_rx_success : ℤ
net_rx_success = pos 0

abbrev pub net_rx_drop : ℤ
net_rx_drop = pos 1

abbrev pub netdev_tx_ok : ℤ
netdev_tx_ok = pos 0

abbrev pub ipproto_icmpv6 : ℕ
ipproto_icmpv6 = 58

abbrev pub icmpv6_echo_reply : ℕ
icmpv6_echo_reply = 129

abbrev pub get_or_else : Option ℤ → ℤ → ℤ
get_or_else none z = z
get_or_else (some y) z = y

-- A `struct sk_buff` whose bytes lie in one piece: its address and `data[0]` to `data[len - 1]`.
pub record SkBuff : Type 0 where
  pub address : Ptr
  pub bytes : List ℕ

-- The branch on the packet's type. The type of an ICMPv6 message is its first byte.
unfoldable pub handle_protocol : List ℕ → K Globals (Unit {0})
handle_protocol buffer = do
  protocol ← read_byte buffer (sizeof_ethhdr + 9)
  if protocol == ipproto_icmpv6
      then (do
        type ← read_byte buffer (sizeof_ethhdr + sizeof_iphdr)
        if type == icmpv6_echo_reply
            then (do pr_info "  ICMPv6 echo reply received!\n"; pure tt)
            else pure tt)
      else pure tt

unfoldable pub my_netdev_rx : SkBuff → K Globals ℤ
unfolding handle_protocol
my_netdev_rx skb =
    if ltb (length skb.bytes) (sizeof_ethhdr + sizeof_iphdr)
    then (do invoke (dev_kfree_skb skb.address); pure net_rx_drop)
    else do
      kernel_buffer ← invoke (kmalloc (length skb.bytes))
      if is_null kernel_buffer.ptr
          then (do invoke (dev_kfree_skb skb.address); pure net_rx_drop)
          else do
            let buffer = skb.bytes
            source ← read_bytes buffer 6 6
            dest ← read_bytes buffer 0 6
            invoke (
                printk info "Received packet: source MAC: %pM, destination MAC: %pM\n"
                  (map pos (source ++ dest)))
            saddr ← read_bytes buffer (sizeof_ethhdr + 12) 4
            daddr ← read_bytes buffer (sizeof_ethhdr + 16) 4
            invoke
                (printk info "  Source IP: %pI4, Destination IP: %pI4\n" (map pos (saddr ++ daddr)))
            handle_protocol buffer
            invoke (kfree kernel_buffer.ptr)
            invoke (dev_kfree_skb skb.address)
            pure net_rx_success

-- The function's body ends in a comment, with no `return`: `none` is the missing number. What
-- stands in the packet afterwards comes second.
unfoldable pub my_netdev_tx : SkBuff → K Globals (Option ℤ × List ℕ)
my_netdev_tx skb = do
  headroom ← invoke (netdev_gadgets_validate_headers skb.address "my_netdev")
  if is_neg headroom.code
      then (do invoke (dev_kfree_skb skb.address); pure (some netdev_tx_ok, skb.bytes))
      else do
        readdressed ← write_bytes skb.bytes my_netdev_mac
        ttl ← read_byte readdressed (sizeof_ethhdr + 8)
        aged ← write_byte readdressed (sizeof_ethhdr + 8) ((ttl + 255) % 256)
        pr_info "my_netdev: Transmitting packet...\n"
        pure (none, aged)

unfoldable pub my_netdev_init : K Globals ℤ
my_netdev_init = do
  put (record { mtu = 1500 })
  ret ← invoke (netdev_register "my_netdev" 1500)
  if is_nonzero ret.code
      then (do pr_err "Failed to register my_netdev\n"; pure (negsuc 0))
      else do pr_info "my_netdev driver initialized\n"; pure (pos 0)

unfoldable pub my_netdev_exit : K Globals (Unit {0})
my_netdev_exit = do invoke (netdev_unregister "my_netdev"); pure tt

-- The entries of `my_netdev_ops`. A number that is not returned counts as 0.
pub data Operation : Type 0 where
  rx tx : SkBuff → Operation

unfoldable pub my_netdev_ops : Operation → K Globals ℤ
unfolding my_netdev_rx my_netdev_tx
my_netdev_ops (rx skb) = my_netdev_rx skb
my_netdev_ops (tx skb) = do r ← my_netdev_tx skb; pure (get_or_else r.0 (pos 0))

-- What the loaded module holds.
abbrev pub owns : Globals → List Resource
owns g = resource net_device 0 ∷ []
