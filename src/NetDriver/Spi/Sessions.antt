-- ===== src/NetDriver/Spi/Sessions.antt =====
-- The SPI device of the network driver: found when the interface is brought up, given up when it is
-- brought down.
use linux_device_drivers.Base.{
  ℕ, ℤ, pos, neg, ◌⊎◌, false, ◌≡◌, String, List, [], ◌∷◌, is_nonzero, if◌then◌else◌,
}
use linux_device_drivers.Machine.{Ptr, St, Log, Reply, pure, ◌>>=◌, ◌>>◌}
use linux_device_drivers.Kernel.{Call, K, spi_bus_find_device, spi_unregister_device, is_null}
use linux_device_drivers.NetDriver.Spi.{Globals}
use linux_device_drivers.NetDriver.Spi.Lives.{up, down, send, serve}

-- The devices found, and those given up, newest first.
abbrev pub add_found : Call → Reply → List Ptr → List Ptr
add_found (spi_bus_find_device _ _) r older = if is_null r.ptr then older else r.ptr ∷ older
add_found _ r older = older

unfoldable pub found : Log Call → List Ptr
found [] = []
found (e ∷ l) = add_found e.call e.reply (found l)

abbrev pub add_given_up : Call → List Ptr → List Ptr
add_given_up (spi_unregister_device p) older = p ∷ older
add_given_up _ older = older

unfoldable pub given_up : Log Call → List Ptr
given_up [] = []
given_up (e ∷ l) = add_given_up e.call (given_up l)

-- Packets that are sent while the interface is up: for each the driver's address, and the text of the
-- source address.
unfoldable pub send_all : List (List ℕ × String) → K Globals (Unit {0})
unfolding serve
send_all [] = pure tt
send_all ((dev_addr, source_ip) ∷ ps) = do serve (send dev_addr source_ip); send_all ps

-- The network layer brings the interface up, has packets sent, and brings it down; if it cannot be
-- brought up, it does neither.
unfoldable pub session : List (List ℕ × String) → K Globals (Unit {0})
unfolding serve send_all
session packets = do
  ret ← serve up
  if is_nonzero ret then pure tt else do send_all packets; serve down; pure tt

unfoldable pub sessions : List (List (List ℕ × String)) → K Globals (Unit {0})
unfolding session
sessions [] = pure tt
sessions (packets ∷ rest) = do session packets; sessions rest

-- Calls that look for no device and give none up.
abbrev pub Leaves : St Call Globals → St Call Globals → Type 0
Leaves s t =
    (t.globals ≡ s.globals) × (found t.log ≡ found s.log) × (given_up t.log ≡ given_up s.log)

abbrev pub Settled : St Call Globals → Type 0
Settled t = given_up t.log ≡ found t.log

-- How bringing the interface up ends: with a device that is kept, or with -EOPNOTSUPP.
abbrev pub GoesUp : St Call Globals → ℤ → St Call Globals → Type 0
GoesUp s r t =
    (given_up t.log ≡ given_up s.log)
    × ((r ≡ neg 95) × (found t.log ≡ found s.log)
        ⊎ (r ≡ pos 0)
          × (is_null t.globals.my_spi_dev ≡ false)
          × (found t.log ≡ t.globals.my_spi_dev ∷ found s.log))
