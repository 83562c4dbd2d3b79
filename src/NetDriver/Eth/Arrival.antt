-- ===== src/NetDriver/Eth/Arrival.antt =====
-- What becomes of a packet that one driver of net_eth.c has forwarded and another receives.
use linux_device_drivers.Base.{
  ℕ, ◌≡◌, ◌⊎◌, false, pos, ℤ, String, some, none, List, [], ◌∷◌, ◌++◌, map, take, drop, Option,
}
use linux_device_drivers.Machine.{Ptr, St, Env, Outcome, ok, exited, fault, Returns}
use linux_device_drivers.Machine.Resources.{Resource, resource, skb, nested}
use linux_device_drivers.Kernel.{Call, kernel_tracked, kmalloc, is_null, id_of}
use linux_device_drivers.Kernel.History.{printed}
use linux_device_drivers.Kernel.Replies.{NullOrAddress}
use linux_device_drivers.NetDriver.Eth.{
  Globals, SkBuff, my_netdev_mac, my_netdev_rx, net_rx_success, netdev_tx_ok,
}

-- A kernel that finds `n` bytes of memory, and holds a packet at `at` on top of `base`.
pub record CanReceive (n : ℕ) (kernel : Env Call) (k : St Call Globals) (at : Ptr)
    (base : List Resource) : Type 0 where
  pub addresses : NullOrAddress (kmalloc n) kernel
  pub finds : is_null (kernel k.log (kmalloc n)).ptr ≡ false
  pub holds : nested k.log ≡ some (resource skb (id_of at) ∷ base)

-- The two lines with the addresses of a packet, newest first; a line without numbers may follow.
abbrev pub Lines : List ℤ → List ℤ → List (String × List ℤ) → List (String × List ℤ) → Type 0
Lines ethernet ip before after =
    (after
      ≡ ("  Source IP: %pI4, Destination IP: %pI4\n", ip)
        ∷ ("Received packet: source MAC: %pM, destination MAC: %pM\n", ethernet)
        ∷ before)
    ⊎ (after
        ≡ ("  ICMPv6 echo reply received!\n", [])
          ∷ ("  Source IP: %pI4, Destination IP: %pI4\n", ip)
          ∷ ("Received packet: source MAC: %pM, destination MAC: %pM\n", ethernet)
          ∷ before)

module _ (kernel : Env Call) (k : St Call Globals) (at : Ptr) (system : List Resource) where
  -- The driver takes the bytes, prints these addresses and frees the packet.
  abbrev pub Takes : List ℕ → List ℕ → List ℕ → Type 0
  Takes bytes ethernet ip =
      Returns
        (λ r u.
          (r ≡ net_rx_success)
          × (nested u.log ≡ some system)
          × Lines (map pos ethernet) (map pos ip) (printed k.log) (printed u.log))
        (my_netdev_rx (record { address = at; bytes = bytes }) kernel k)

  -- The end of a path: the packet arrives unchanged at the receiving driver, unless it was freed.
  abbrev pub Arrives : SkBuff → List Resource → Outcome Call Globals (Option ℤ × List ℕ) → Type 0
  Arrives p base (ok (none, bytes) t) =
      Takes bytes (take 6 (drop 6 p.bytes) ++ my_netdev_mac)
        (take 4 (drop 26 p.bytes) ++ take 4 (drop 30 p.bytes))
  Arrives p base (ok (some z, bytes) t) = (z ≡ netdev_tx_ok) × (nested t.log ≡ some base)
  Arrives p base (exited _ _) = ⊥
  Arrives p base (fault _ _) = ⊥
