-- ===== src/UserProgram/RawSocket.antt =====
-- net_usp.c, its sending part: builds an ICMPv6 echo request and sends it from a raw socket. The text
-- of the file breaks off inside the last call of `printf`; its receiving part is commented out.
pub mod Request
pub mod Run
pub mod Delivery
pub mod Receiver
pub mod Reception
use linux_device_drivers.Base.{
  ℕ, ◌+◌, ◌*◌, ◌/◌, ◌%◌, String, List, [], ◌∷◌, ◌++◌, pos, is_minus_one, if◌then◌else◌, replicate,
  word16, word32,
}
use linux_device_drivers.Machine.{pure, ◌>>=◌, ◌>>◌, invoke, exit, crash, null_dereference}
use linux_device_drivers.Machine.Buffer.{read_bytes, write_bytes_at}
use linux_device_drivers.Kernel.{IpHdr}
use linux_device_drivers.Posix.{
  P, SockaddrLl, perror, printf, socket, if_nametoindex, malloc, htons, inet_addr, in_checksum,
  sendto, is_null,
}

abbrev pub my_netdev_name : String
my_netdev_name = "my_netdev"

abbrev pub destination_ip : String
destination_ip = "192.168.0.20"

-- What the headers of the C library define.
abbrev pub eth_p_all : ℕ
eth_p_all = 3

abbrev pub eth_p_ip : ℕ
eth_p_ip = 0x800

abbrev pub eth_alen : ℕ
eth_alen = 6

abbrev pub ipproto_icmpv6 : ℕ
ipproto_icmpv6 = 58

abbrev pub icmpv6_echo_request : ℕ
icmpv6_echo_request = 128

abbrev pub sizeof_ether_header : ℕ
sizeof_ether_header = 14

abbrev pub sizeof_ip : ℕ
sizeof_ip = 20

abbrev pub sizeof_icmpv6hdr : ℕ
sizeof_icmpv6hdr = 8

-- The size given to `malloc` and to `sendto`, with 64 bytes of payload.
abbrev pub packet_size : ℕ
packet_size = sizeof_ether_header + sizeof_ip + sizeof_icmpv6hdr + 64

-- A `struct ip` in memory: `ihl` is the lower half of the first byte.
abbrev pub ip_bytes : IpHdr → List ℕ
ip_bytes h =
    (h.version * 16 + h.ihl)
    ∷ h.tos
    ∷ (word16 h.tot_len
        ++ (word16 h.id
            ++ (word16 h.frag_off
                ++ (h.ttl ∷ h.protocol ∷ (word16 h.check ++ (word32 h.saddr ++ word32 h.daddr))))))

-- The IP header. Its checksum is taken while the field of the checksum is 0.
unfoldable pub ip_header : P IpHdr
ip_header = do
  saddr ← invoke (inet_addr "192.168.1.10")
  daddr ← invoke (inet_addr destination_ip)
  let unsummed : IpHdr = record {
    version = 4;
    ihl = 5;
    tos = 0;
    tot_len = sizeof_ip + sizeof_icmpv6hdr + 64;
    id = 0;
    frag_off = 0;
    ttl = 64;
    protocol = ipproto_icmpv6;
    saddr = saddr.num;
    daddr = daddr.num;
    check = 0;
  }
  sum ← invoke (in_checksum (ip_bytes unsummed))
  pure (record unsummed { check = sum.num })

-- The three headers written over `memory`, what `malloc` has returned. `my_netdev_mac` is not
-- declared in the file and is the parameter `mac`.
unfoldable pub build_request : List ℕ → List ℕ → P (List ℕ)
unfolding ip_header
build_request mac memory = do
  source ← read_bytes mac 0 eth_alen
  proto ← invoke (htons eth_p_ip)
  packet ← write_bytes_at memory 0 (replicate eth_alen 0xff ++ (source ++ word16 proto.num))
  ip ← ip_header
  packet ← write_bytes_at packet sizeof_ether_header (ip_bytes ip)
  write_bytes_at packet (sizeof_ether_header + sizeof_ip) (icmpv6_echo_request ∷ 0 ∷ [])

unfoldable pub main : List ℕ → P (Unit {0})
main mac = do
  protocol ← invoke (htons eth_p_all)
  sockfd ← invoke (socket "AF_PACKET, SOCK_RAW, ETH_P_ALL")
  if is_minus_one sockfd.code then (do invoke (perror "socket"); exit (pos 1)) else do
    sll_addr ← read_bytes mac 0 eth_alen
    index ← invoke (if_nametoindex my_netdev_name)
    let socket_address : SockaddrLl = record {
      sll_halen = eth_alen;
      sll_addr = sll_addr;
      sll_ifindex = index.num;
    }
    memory ← invoke (malloc packet_size)
    if is_null memory.ptr then crash null_dereference else do
      packet ← build_request mac memory.bytes
      sent ← invoke (sendto sockfd.code packet socket_address)
      if is_minus_one sent.code
          then (do invoke (perror "sendto"); exit (pos 1))
          else do invoke (printf "Sent ICMPv6 echo request to 192.168.0.20\n" []); pure tt
