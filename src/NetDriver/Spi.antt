-- ===== src/NetDriver/Spi.antt =====
-- netSpi.c: a network driver that sends what it reads over SPI as a TCP packet.
pub mod Lives
pub mod Shared
pub mod Packets
pub mod Sessions
use linux_device_drivers.Base.{
  ℕ, ◌+◌, ◌-◌, ◌*◌, ◌/◌, ℤ, pos, neg, String, List, [], ◌∷◌, leb, is_neg, if◌then◌else◌,
}
use linux_device_drivers.Machine.{
  Ptr, null, pure, ◌>>=◌, ◌>>◌, invoke, get, put, crash, out_of_bounds,
}
use linux_device_drivers.Machine.Buffer.{read_bytes}
use linux_device_drivers.Machine.Resources.{Resource, resource, net_device}
use linux_device_drivers.Kernel.{
  K, printk, error, EthHdr, IpHdr, TcpHdr, Packet, spi_bus_find_device, spi_unregister_device,
  spi_transfer, kfree, dev_alloc_skb, dev_queue_xmit, htons, inet_addr, in_checksum, tcp_v4_check,
  register_netdev, unregister_netdev, dev_err, is_null,
}

pub record Globals : Type 0 where
  pub my_spi_dev : Ptr

-- DATA_SIZE and PACKET_SIZE; `spi_bus_id` and `spi_device_id` are read as the macros in capitals.
abbrev pub data_size : ℕ
data_size = 16

abbrev pub packet_size : ℕ
packet_size = 100

abbrev pub spi_bus_id : ℕ
spi_bus_id = 0

abbrev pub spi_device_id : ℕ
spi_device_id = 0

-- The sizes of the header structs, and what the kernel's headers define.
abbrev pub sizeof_ethhdr : ℕ
sizeof_ethhdr = 14

abbrev pub sizeof_ip : ℕ
sizeof_ip = 20

abbrev pub sizeof_tcphdr : ℕ
sizeof_tcphdr = 20

abbrev pub eth_p_ip : ℕ
eth_p_ip = 0x0800

abbrev pub ipproto_tcp : ℕ
ipproto_tcp = 6

abbrev pub net_rx_success : ℤ
net_rx_success = pos 0

abbrev pub net_rx_drop : ℤ
net_rx_drop = pos 1

unfoldable pub my_netdev_open : K Globals ℤ
my_netdev_open = do
  found ← invoke (spi_bus_find_device spi_bus_id spi_device_id)
  put (record { my_spi_dev = found.ptr })
  if is_null found.ptr
      then (do invoke (dev_err "Failed to find SPI device\n"); pure (neg 95))
      else pure (pos 0)

unfoldable pub my_netdev_close : K Globals ℤ
my_netdev_close = do
  g ← get
  if is_null g.my_spi_dev
      then pure (pos 0)
      else do invoke (spi_unregister_device g.my_spi_dev); pure (pos 0)

-- `put_skb(n)` on a buffer of PACKET_SIZE bytes that holds `used` bytes: the bytes used after it.
abbrev pub put_skb : ℕ → ℕ → K Globals ℕ
put_skb used n = if leb (used + n) packet_size then pure (used + n) else crash out_of_bounds

unfoldable pub ethernet_header : List ℕ → K Globals EthHdr
ethernet_header dev_addr = do
  proto ← invoke (htons eth_p_ip)
  pure (record {
    h_dest = 0xff ∷ 0xff ∷ 0xff ∷ 0xff ∷ 0xff ∷ 0xff ∷ [];
    h_source = dev_addr;
    h_proto = proto.num;
  })

-- The text of the source address is cut off in the file: it is a parameter.
unfoldable pub ip_header : String → K Globals IpHdr
ip_header source_ip = do
  saddr ← invoke (inet_addr source_ip)
  daddr ← invoke (inet_addr "10.0.0.2")
  let header : IpHdr = record {
    version = 4;
    ihl = 5;
    tos = 0;
    tot_len = sizeof_ip + sizeof_tcphdr + 4;
    id = 0;
    frag_off = 0;
    ttl = 64;
    protocol = ipproto_tcp;
    saddr = saddr.num;
    daddr = daddr.num;
    check = 0;
  }
  sum ← invoke (in_checksum header)
  pure (record header { check = sum.num })

unfoldable pub tcp_header : K Globals TcpHdr
tcp_header = do
  source ← invoke (htons 1234)
  dest ← invoke (htons 5678)
  window ← invoke (htons 4096)
  pure (record {
    source = source.num;
    dest = dest.num;
    seq = 0;
    ack_seq = 0;
    doff = sizeof_tcphdr / 4;
    fin = 0;
    syn = 0;
    rst = 0;
    psh = 0;
    ack = 0;
    urg = 0;
    ece = 0;
    cwr = 0;
    window = window.num;
    check = 0;
  })

-- The packet that carries the temperature, from the Ethernet header to the TCP checksum.
unfoldable pub build_packet : List ℕ → String → List ℕ → K Globals Packet
unfolding ethernet_header ip_header tcp_header
build_packet dev_addr source_ip temperature = do
  used ← put_skb 0 sizeof_ethhdr
  eth ← ethernet_header dev_addr
  used ← put_skb used sizeof_ip
  ip ← ip_header source_ip
  used ← put_skb used sizeof_tcphdr
  tcp ← tcp_header
  used ← put_skb used 4
  sum ← invoke (tcp_v4_check ip tcp temperature used)
  pure (record {
    len = used;
    eth = eth;
    ip = ip;
    tcp = record tcp { check = sum.num };
    payload = temperature;
  })

-- The driver's `ndo_start_xmit`; it does not use the packet that it is given.
unfoldable pub my_netdev_rx : List ℕ → String → Ptr → K Globals ℤ
unfolding build_packet
my_netdev_rx dev_addr source_ip skb = do
  spi_data ← invoke (spi_transfer spi_bus_id spi_device_id data_size)
  if is_null spi_data.ptr
      then (do invoke (dev_err "Failed to receive data from SPI device\n"); pure net_rx_drop)
      else do
        temperature ← read_bytes spi_data.bytes 0 4
        new_skb ← invoke (dev_alloc_skb packet_size)
        if is_null new_skb.ptr
            then (do
              invoke (kfree spi_data.ptr)
              invoke (dev_err "Failed to allocate skb\n")
              pure net_rx_drop)
            else do
              packet ← build_packet dev_addr source_ip temperature
              invoke (dev_queue_xmit new_skb.ptr packet)
              invoke (kfree spi_data.ptr)
              pure net_rx_success

-- The entries of `my_netdev_ops`, with what they are given: the last with the address in
-- `dev->dev_addr`, the text of `source_ip` and the packet.
pub data Operation : Type 0 where
  open_device stop_device : Operation
  transmit : List ℕ → String → Ptr → Operation

unfoldable pub my_netdev_ops : Operation → K Globals ℤ
unfolding my_netdev_open my_netdev_close my_netdev_rx
my_netdev_ops open_device = my_netdev_open
my_netdev_ops stop_device = my_netdev_close
my_netdev_ops (transmit dev_addr source_ip skb) = my_netdev_rx dev_addr source_ip skb

unfoldable pub my_netdev_init : K Globals ℤ
my_netdev_init = do
  ret ← invoke (register_netdev "my_netdev")
  if is_neg ret.code
      then (do
        invoke (printk error "Failed to register netdev: %d\n" (ret.code ∷ []))
        pure ret.code)
      else pure (pos 0)

unfoldable pub my_netdev_exit : K Globals (Unit {0})
my_netdev_exit = do invoke (unregister_netdev "my_netdev"); pure tt

-- What the loaded module holds.
abbrev pub owns : Globals → List Resource
owns g = resource net_device 0 ∷ []
