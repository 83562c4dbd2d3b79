-- ===== src/NetDriver/Eth/Forward.antt =====
-- A packet that `my_netdev_tx` edits again and again, as on a path through several of its devices.
use linux_device_drivers.Base.{
  ℕ, zero, suc, ◌+◌, ◌*◌, ◌%◌, ℤ, ◌≡◌, ◌⊎◌, Option, none, some, List, ◌∷◌, length, get_or, ltb,
  ◌==◌, if◌then◌else◌,
}
use linux_device_drivers.Machine.{St, pure, ◌>>=◌}
use linux_device_drivers.Machine.Resources.{Resource, resource, skb, nested}
use linux_device_drivers.Kernel.{Call, K, kernel_tracked, id_of}
use linux_device_drivers.NetDriver.Eth.{Globals, SkBuff, my_netdev_mac, my_netdev_tx, netdev_tx_ok}

-- One more hop for a packet that has not been freed.
unfoldable pub hop : SkBuff → Option ℤ × List ℕ → K Globals (Option ℤ × List ℕ)
hop p (none, bytes) = my_netdev_tx (record p { bytes = bytes })
hop p (some z, bytes) = pure (some z, bytes)

unfoldable pub forward : ℕ → SkBuff → K Globals (Option ℤ × List ℕ)
forward zero p = pure (none, p.bytes)
forward (suc n) p = do r ← forward n p; hop p r

-- Byte `j` after `n` hops.
abbrev pub aged : ℕ → List ℕ → ℕ → ℕ
aged n old j =
    if n == 0
    then get_or old j 0
    else if ltb j 6
    then get_or my_netdev_mac j 0
    else if j == 22
    then (get_or old 22 0 + 255 * n) % 256
    else get_or old j 0

-- What `n` hops leave: the packet was freed, or it is still held.
abbrev pub Forwarded : ℕ → SkBuff → ℕ → List Resource → Option ℤ × List ℕ → St Call Globals → Type 0
Forwarded n p j base (r, bytes) t =
    (r ≡ some netdev_tx_ok) × (nested t.log ≡ some base)
    ⊎ (r ≡ none)
      × (length bytes ≡ length p.bytes)
      × (get_or bytes j 0 ≡ aged n p.bytes j)
      × (nested t.log ≡ some (resource skb (id_of p.address) ∷ base))
