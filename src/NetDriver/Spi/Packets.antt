-- ===== src/NetDriver/Spi/Packets.antt =====
-- The packet that `my_netdev_rx` sends, and what it frees.
use linux_device_drivers.Base.{
  Option, none, replicate, ℕ, ◌+◌, ◌*◌, ◌%◌, ◌/◌, ℤ, ◌≡◌, ◌⊎◌, ◌≤◌, String, some, List, [], ◌∷◌,
  arith, length, take, length-take_of_le,
}
use linux_device_drivers.Machine.{Ptr, St, Env, Log, Reply, Returns, after}
use linux_device_drivers.Machine.Resources.{Resource, resource, skb, nested}
use linux_device_drivers.Kernel.{
  Call, kernel_tracked, spi_transfer, dev_alloc_skb, dev_queue_xmit, in_checksum, tcp_v4_check,
  IpHdr, TcpHdr, Packet, id_of,
}
use linux_device_drivers.Kernel.Replies.{NullOrAddress}
use linux_device_drivers.NetDriver.Spi.{
  Globals, my_netdev_rx, data_size, packet_size, spi_bus_id, spi_device_id, sizeof_ethhdr,
  net_rx_success, net_rx_drop,
}

abbrev pub transfer : Call
transfer = spi_transfer spi_bus_id spi_device_id data_size

-- The packets handed over for sending, newest first.
abbrev pub queue : Call → List Packet → List Packet
queue (dev_queue_xmit _ p) older = p ∷ older
queue _ older = older

unfoldable pub queued : Log Call → List Packet
queued [] = []
queued (e ∷ l) = queue e.call (queued l)

-- The newest checksum of each kind: what it was taken of, and the sum.
abbrev pub ip_sum_of : Call → Reply → Option (IpHdr × ℕ) → Option (IpHdr × ℕ)
ip_sum_of (in_checksum h) r older = some (h, r.num)
ip_sum_of _ r older = older

unfoldable pub ip_sum : Log Call → Option (IpHdr × ℕ)
ip_sum [] = none
ip_sum (e ∷ l) = ip_sum_of e.call e.reply (ip_sum l)

-- Of a TCP segment: the two headers, the payload and the length that was given.
pub record Segment : Type 0 where
  pub ip : IpHdr
  pub tcp : TcpHdr
  pub payload : List ℕ
  pub len : ℕ

abbrev pub tcp_sum_of : Call → Reply → Option (Segment × ℕ) → Option (Segment × ℕ)
tcp_sum_of (tcp_v4_check ip tcp payload n) r older =
    some (record { ip = ip; tcp = tcp; payload = payload; len = n }, r.num)
tcp_sum_of _ r older = older

unfoldable pub tcp_sum : Log Call → Option (Segment × ℕ)
tcp_sum [] = none
tcp_sum (e ∷ l) = tcp_sum_of e.call e.reply (tcp_sum l)

-- Each header has the checksum that was taken of it while the field of the checksum was 0, that of TCP
-- with the length of the whole packet in place of the segment's. The packet goes from the device to all.
pub record IsSummed (dev_addr : List ℕ) (p : Packet) (l : Log Call) : Type 0 where
  pub to_all : p.eth.h_dest ≡ replicate 6 0xff
  pub from_device : p.eth.h_source ≡ dev_addr
  pub ip_summed : ip_sum l ≡ some (record p.ip { check = 0 }, p.ip.check)
  pub tcp_summed :
      tcp_sum l
      ≡ some (
        record { ip = p.ip; tcp = record p.tcp { check = 0 }; payload = p.payload; len = p.len },
        p.tcp.check,
      )

-- What the network reads where a little-endian machine has stored a number of 16 bits as it is.
abbrev pub on_wire : ℕ → ℕ
on_wire n = n % 256 * 256 + n / 256 % 256

-- The packet has the size of its headers and its payload, and it fits its buffer. The length in its IP
-- header, on the wire, is 256 times what it is to be, since its two bytes are not swapped.
pub record IsFormed (p : Packet) : Type 0 where
  pub whole : p.len ≡ sizeof_ethhdr + (p.ip.ihl * 4 + p.tcp.doff * 4 + length p.payload)
  pub misread : on_wire p.ip.tot_len ≡ 256 * (p.ip.ihl * 4 + p.tcp.doff * 4 + length p.payload)
  pub fits : p.len ≤ packet_size

-- A transfer that succeeds has written all the bytes that it was asked for.
abbrev pub Fills : Env Call → Type 0
Fills env = (l : Log Call) → data_size ≤ length (env l transfer).bytes

-- What `my_netdev_rx` sends, given what is queued before and the log after.
abbrev pub Sends : List ℕ → List ℕ → List Packet → Log Call → List Packet → Type 0
Sends dev_addr temperature before l [] = ⊥
Sends dev_addr temperature before l (p ∷ rest) =
    (rest ≡ before) × (p.payload ≡ temperature) × IsFormed p × IsSummed dev_addr p l

abbrev pub Queues :
    List ℕ → Env Call → St Call Globals → Ptr → List Resource → ℤ → St Call Globals → Type 0
Queues dev_addr env s given base r t =
    (nested t.log ≡ some (resource skb (id_of given) ∷ base))
    × ((r ≡ net_rx_drop) × (queued t.log ≡ queued s.log)
        ⊎ (r ≡ net_rx_success)
          × Sends dev_addr (take 4 (env s.log transfer).bytes) (queued s.log) t.log (queued t.log))

-- If the transfer and the allocation return NULL or an address, and the transfer fills its 16
-- bytes: the buffer of the transfer is freed on every path, the new packet is handed over, but the
-- packet that was handed in is still held. NET_RX_DROP is returned with nothing sent;
-- NET_RX_SUCCESS with one packet sent, from the device's address to all, whose payload is the first
-- four bytes from SPI. Its size is that of its three headers and the payload, within the 100 bytes
-- of its buffer. But the length in its IP header is stored without swapping its bytes: on a
-- little-endian machine the network reads 256 times the length meant. Each of the two checksums was
-- taken of the packet as it is sent, but for that checksum's own field, which was 0, and that of TCP was
-- given the length of the whole packet in place of the length of the segment.
pub my_netdev_rx-Sends :
    (dev_addr : List ℕ) (source_ip : String) (given : Ptr) (env : Env Call) (s : St Call Globals)
    (base : List Resource)
    → NullOrAddress transfer env
    → NullOrAddress (dev_alloc_skb packet_size) env
    → Fills env
    → nested s.log ≡ some (resource skb (id_of given) ∷ base)
    → Returns (Queues dev_addr env s given base) (my_netdev_rx dev_addr source_ip given env s)
unfolding my_netdev_rx nested queued ip_sum tcp_sum
my_netdev_rx-Sends dev_addr source_ip given env s base valid alloc fills h = ground (
  arith,
  valid s.log,
  alloc (after {G = Globals} env transfer s).log,
  fills s.log,
  length-take_of_le 4 (env s.log transfer).bytes,
)
