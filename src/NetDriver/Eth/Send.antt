-- ===== src/NetDriver/Eth/Send.antt =====
-- What `my_netdev_tx` makes of a packet.
use linux_device_drivers.Base.{
  ℕ, ◌+◌, ◌%◌, ℤ, ◌≡◌, ◌⊎◌, ◌≤◌, Option, none, some, List, ◌∷◌, arith, length, get_or, set, overlay,
  length-overlay, length-set, get_or-set, get_or-overlay, ltb, ◌==◌, if◌then◌else◌,
}
use linux_device_drivers.Machine.{St, Env, Returns}
use linux_device_drivers.Machine.Resources.{Resource, resource, skb, nested}
use linux_device_drivers.Kernel.{Call, kernel_tracked, id_of}
use linux_device_drivers.NetDriver.Eth.{Globals, SkBuff, my_netdev_mac, my_netdev_tx, netdev_tx_ok}

-- The packet as it is to be sent: byte `j` of it, given the packet before.
abbrev pub edited : List ℕ → ℕ → ℕ
edited old j =
    if ltb j 6
    then get_or my_netdev_mac j 0
    else if j == 22
    then (get_or old 22 0 + 255) % 256
    else get_or old j 0

edited_lem :
    (old : List ℕ) (j : ℕ)
    → 34 ≤ length old
    → let out = overlay my_netdev_mac old in
      get_or (set out 22 ((get_or out 22 0 + 255) % 256)) j 0 ≡ edited old j
edited_lem old j h =
    let out = overlay my_netdev_mac old in
    ground (
      arith,
      get_or-set out 22 j ((get_or out 22 0 + 255) % 256) 0,
      get_or-overlay my_netdev_mac old j 0,
      get_or-overlay my_netdev_mac old 22 0,
      length-overlay my_netdev_mac old,
    )

-- What sending leaves: the number returned, the bytes, and what is held.
abbrev pub Edits : SkBuff → ℕ → List Resource → Option ℤ × List ℕ → St Call Globals → Type 0
Edits p j base (r, bytes) t =
    (r ≡ some netdev_tx_ok) × (bytes ≡ p.bytes) × (nested t.log ≡ some base)
    ⊎ (r ≡ none)
      × (length bytes ≡ length p.bytes)
      × (get_or bytes j 0 ≡ edited p.bytes j)
      × (nested t.log ≡ some (resource skb (id_of p.address) ∷ base))

module _ (p : SkBuff) (j : ℕ) (env : Env Call) (s : St Call Globals) (base : List Resource) where
  -- A packet with room for its two headers: if its headers are not accepted, `my_netdev_tx` frees it
  -- unchanged and returns NETDEV_TX_OK. Otherwise it writes the driver's address as the destination,
  -- lowers the time to live by one, 0 becoming 255, and changes no other byte; it then returns no
  -- number, and the packet is still held.
  pub my_netdev_tx-edited :
      34 ≤ length p.bytes
      → nested s.log ≡ some (resource skb (id_of p.address) ∷ base)
      → Returns (Edits p j base) (my_netdev_tx p env s)
  unfolding my_netdev_tx nested
  my_netdev_tx-edited long h =
      let out = overlay my_netdev_mac p.bytes in
      ground (
        arith,
        edited_lem p.bytes j,
        length-overlay my_netdev_mac p.bytes,
        length-set out 22 ((get_or out 22 0 + 255) % 256),
      )
