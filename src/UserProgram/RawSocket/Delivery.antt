-- ===== src/UserProgram/RawSocket/Delivery.antt =====
-- What the driver of net_eth.c makes of the packets that net_usp.c sends.
use linux_device_drivers.Base.{ℕ, ◌≡◌, some, List, map, replicate, pos, ℤ, String, ◌++◌, [], ◌∷◌}
use linux_device_drivers.Machine.{Ptr, St, Env, Outcome, Returns}
use linux_device_drivers.Machine.Resources.{Resource, nested}
use linux_device_drivers.Kernel
use linux_device_drivers.Kernel.{kernel_tracked, kmalloc, is_null}
use linux_device_drivers.Kernel.History.{printed}
use linux_device_drivers.NetDriver.Eth
use linux_device_drivers.NetDriver.Eth.{my_netdev_rx, net_rx_success}
use linux_device_drivers.Posix
use linux_device_drivers.Posix.{posix_tracked}
use linux_device_drivers.UserProgram.RawSocket.Run.{SentAll}

-- Two messages were printed, the older one with the addresses of the Ethernet header.
abbrev pub Shows : List ℕ → List (String × List ℤ) → List (String × List ℤ) → Type 0
Shows mac before [] = ⊥
Shows mac before (ip ∷ []) = ⊥
Shows mac before (ip ∷ ethernet ∷ rest) =
    (ethernet.1 ≡ map pos (mac ++ replicate 6 0xff)) × (rest ≡ before)

module _ (kernel : Env Kernel.Call) (k : St Kernel.Call Eth.Globals) (at : Ptr)
    (base : List Resource) (mac : List ℕ) where
  -- The driver takes a packet of these bytes without a fault, prints its addresses and nothing about
  -- an echo reply, and frees it.
  abbrev pub Accepts : List ℕ → Type 0
  Accepts bytes =
      Returns
        (λ r t.
          (r ≡ net_rx_success)
          × (nested t.log ≡ some base)
          × Shows mac (printed k.log) (printed t.log))
        (my_netdev_rx (record { address = at; bytes = bytes }) kernel k)

  -- A run of the sender has handed such packets only to `sendto`.
  abbrev pub Delivers : Outcome Posix.Call (Unit {0}) (Unit {0}) → Type 0
  Delivers = SentAll Accepts
