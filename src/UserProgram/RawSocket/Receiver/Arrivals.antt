-- ===== src/UserProgram/RawSocket/Receiver/Arrivals.antt =====
-- What has arrived at the receiving program, and the lines that are to be printed for it.
use linux_device_drivers.Base.{
  ℕ, ℤ, ◌+◌, String, Option, none, some, List, [], ◌∷◌, pos, is_minus_one, if◌then◌else◌, overlay,
  get_or,
}
use linux_device_drivers.Machine.{Ptr, Log, Reply}
use linux_device_drivers.Posix.{Call, recvfrom, printf}
use linux_device_drivers.UserProgram.RawSocket.Receiver.{address_of}

-- What the calls of `recvfrom` have brought, newest first: a packet, or a failure.
abbrev pub arrival : Call → Reply → List (Option (List ℕ)) → List (Option (List ℕ))
arrival (recvfrom _ _) r older = (if is_minus_one r.code then none else some r.bytes) ∷ older
arrival _ r older = older

unfoldable pub arrivals : Log Call → List (Option (List ℕ))
arrivals [] = []
arrivals (e ∷ l) = arrival e.call e.reply (arrivals l)

-- The lines of numbers that were printed, newest first.
abbrev pub add_line : Call → List (String × List ℤ) → List (String × List ℤ)
add_line (printf text numbers) older = (text, numbers) ∷ older
add_line _ older = older

unfoldable pub printed : Log Call → List (String × List ℤ)
printed [] = []
printed (e ∷ l) = add_line e.call (printed l)

-- The one buffer after these arrivals: a packet is written over what was there before.
unfoldable pub buffer_of : List ℕ → List (Option (List ℕ)) → List ℕ
buffer_of old [] = old
buffer_of old (none ∷ older) = buffer_of old older
buffer_of old (some p ∷ older) = overlay p (buffer_of old older)

-- What is to be printed after these arrivals, for a buffer at an address.
unfoldable pub report : Ptr → List ℕ → List (Option (List ℕ)) → List (String × List ℤ)
unfolding buffer_of
report at old [] = []
report at old (none ∷ older) =
    ("Sending ICMPv6 echo request to 192.168.0.20\n", []) ∷ report at old older
report at old (some p ∷ older) =
    let buffer = buffer_of old (some p ∷ older) in
    ("  ICMPv6 type: %d, code: %d\n", pos (get_or buffer 34 0) ∷ pos (get_or buffer 35 0) ∷ [])
    ∷ (
      "  Ethernet source: %pM, destination: %pM\n",
      pos (address_of at + 6) ∷ pos (address_of at) ∷ [],
    )
    ∷ ("Sending ICMPv6 echo request to 192.168.0.20\n", [])
    ∷ report at old older
