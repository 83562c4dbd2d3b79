-- ===== src/NetDriver/Eth/Traffic.antt =====
-- Packets that arrive one after the other at the driver of net_eth.c.
use linux_device_drivers.Base.{
  ℕ, ℤ, ◌≡◌, Bool, true, false, List, [], ◌∷◌, map, refl, arith, length, get_or, ltb, ◌==◌, ◌&&◌,
  if◌then◌else◌,
}
use linux_device_drivers.Machine.{
  is_addr, St, Env, Log, Returns, pure, invoke, after, Returns-and_then, ◌>>=◌,
}
use linux_device_drivers.Machine.Resources.{nested}
use linux_device_drivers.Kernel.{Call, K, kernel_tracked, kmalloc, dev_alloc_skb}
use linux_device_drivers.NetDriver.Eth.{
  Globals, my_netdev_rx, net_rx_success, net_rx_drop, ipproto_icmpv6,
}

-- The kernel puts the bytes that arrive into a packet and hands it to the driver.
unfoldable pub arrive : List ℕ → K Globals ℤ
arrive bytes = do
  skb ← invoke (dev_alloc_skb (length bytes))
  my_netdev_rx (record { address = skb.ptr; bytes = bytes })

unfoldable pub traffic : List (List ℕ) → K Globals (List ℤ)
traffic [] = pure []
traffic (p ∷ ps) = do r ← arrive p; rs ← traffic ps; pure (r ∷ rs)

-- A kernel that finds memory whenever it is asked.
pub record HasMemory (env : Env Call) : Type 0 where
  pub memory : (l : Log Call) (n : ℕ) → is_addr (env l (kmalloc n)).ptr ≡ true
  pub packets : (l : Log Call) (n : ℕ) → is_addr (env l (dev_alloc_skb n)).ptr ≡ true

-- What the driver is to answer to a packet: short ones are dropped.
abbrev pub verdict : List ℕ → ℤ
verdict p = if ltb (length p) 34 then net_rx_drop else net_rx_success

-- No packet is cut off behind an IP header that announces ICMPv6.
abbrev pub is_cut_off : List ℕ → Bool
is_cut_off p = length p == 34 && get_or p 23 0 == ipproto_icmpv6

abbrev pub NoneCutOff : List (List ℕ) → Type 0
NoneCutOff [] = Unit {0}
NoneCutOff (p ∷ ps) = (is_cut_off p ≡ false) × NoneCutOff ps

-- What a function of the driver has left as it was.
abbrev pub Unchanged : St Call Globals → St Call Globals → Type 0
Unchanged s t = (nested t.log ≡ nested s.log) × (t.globals ≡ s.globals)

arrive_lem :
    (p : List ℕ) (env : Env Call) (s : St Call Globals)
    → is_cut_off p ≡ false
    → HasMemory env
    → Returns (λ r t. (r ≡ verdict p) × Unchanged s t) (arrive p env s)
unfolding arrive my_netdev_rx nested
arrive_lem p env s whole m = ground (
  arith,
  m.packets s.log (length p),
  m.memory (after env (dev_alloc_skb (length p)) s).log (length p),
  whole,
)

-- On a kernel that finds memory, and if no packet is cut off behind an IP header that announces
-- ICMPv6: packets that arrive one after the other never make the driver fault. It answers each
-- by its length alone, dropping those of less than 34 bytes, and after all of them holds what it held
-- before.
pub traffic-Unchanged :
    (ps : List (List ℕ)) (env : Env Call) (s : St Call Globals)
    → HasMemory env
    → NoneCutOff ps
    → Returns (λ rs t. (rs ≡ map verdict ps) × Unchanged s t) (traffic ps env s)
unfolding traffic
traffic-Unchanged [] env s m whole = (refl, (refl, refl))
traffic-Unchanged (p ∷ ps) env s m whole =
    Returns-and_then (λ r t. (r ≡ verdict p) × Unchanged s t)
      (λ rs t. (rs ≡ map verdict (p ∷ ps)) × Unchanged s t) (arrive p env s) _
      (λ r t h.
        Returns-and_then (λ rs u. (rs ≡ map verdict ps) × Unchanged t u)
          (λ rs u. (rs ≡ map verdict (p ∷ ps)) × Unchanged s u) (traffic ps env t) _
          (λ rs u k. ground arith) (traffic-Unchanged ps env t m whole.1))
      (arrive_lem p env s whole.0 m)
