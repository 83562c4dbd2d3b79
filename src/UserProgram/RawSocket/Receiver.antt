-- ===== src/UserProgram/RawSocket/Receiver.antt =====
-- net_usp.c, its receiving part, a second program that the file keeps in a comment: prints the
-- headers of the packets that arrive at a raw socket, for ever.
pub mod Arrivals
pub mod Shows
pub mod Fields
use linux_device_drivers.Base.{
  ℕ, ℤ, zero, suc, ◌+◌, ◌*◌, Bool, String, List, [], ◌∷◌, pos, is_minus_one, if◌then◌else◌, overlay,
  number_of,
}
use linux_device_drivers.Machine.{
  Ptr, null, err_ptr, addr, pure, ◌>>=◌, ◌>>◌, invoke, exit, crash, null_dereference,
}
use linux_device_drivers.Machine.Buffer.{read_byte, read_bytes}
use linux_device_drivers.Posix.{
  P, SockaddrLl, perror, printf, printf_text, printf_texts, socket, if_nametoindex, malloc, htons,
  recvfrom, inet_ntoa, sleep, is_null,
}
use linux_device_drivers.UserProgram.RawSocket.{
  my_netdev_name, eth_p_all, eth_alen, sizeof_ether_header, sizeof_ip,
}

abbrev pub buffer_size : ℕ
buffer_size = 2048

-- An address as a number, 0 for NULL.
abbrev pub address_of : Ptr → ℕ
address_of (addr a) = a
address_of null = 0
address_of (err_ptr _) = 0

-- Both texts of the line on IP lie in the one buffer of `inet_ntoa`, so that the line shows the
-- newer of them twice. C leaves open which call is made first: `source_first` says it.
unfoldable pub print_ip : Bool → List ℕ → P (Unit {0})
print_ip source_first buffer = do
  saddr ← read_bytes buffer (sizeof_ether_header + 12) 4
  daddr ← read_bytes buffer (sizeof_ether_header + 16) 4
  let former = if source_first then number_of saddr else number_of daddr
  let latter = if source_first then number_of daddr else number_of saddr
  invoke (inet_ntoa former)
  text ← invoke (inet_ntoa latter)
  invoke (printf_texts "  IP source: %s, destination: %s\n" (text.bytes ∷ text.bytes ∷ []))
  pure tt

-- The lines on the headers of what lies in the buffer. `printf` takes `%pM` for `%p` and a letter:
-- it prints the addresses of the two fields.
unfoldable pub print_headers : Bool → Ptr → List ℕ → P (Unit {0})
unfolding print_ip
print_headers source_first memory buffer = do
  invoke (
      printf "  Ethernet source: %pM, destination: %pM\n"
        (pos (address_of memory + 6) ∷ pos (address_of memory) ∷ []))
  if is_null memory then crash null_dereference else do
    print_ip source_first buffer
    type ← read_byte buffer (sizeof_ether_header + sizeof_ip)
    code ← read_byte buffer (sizeof_ether_header + sizeof_ip + 1)
    invoke (printf "  ICMPv6 type: %d, code: %d\n" (pos type ∷ pos code ∷ []))
    pure tt

-- One turn of the loop, with what the buffer holds before and after it. `num` of the answer of
-- `recvfrom` is what it leaves in `from_addr.sin_addr`.
unfoldable pub turn : Bool → ℤ → Ptr → List ℕ → P (List ℕ)
unfolding print_headers
turn source_first sockfd memory buffer = do
  invoke (printf "Sending ICMPv6 echo request to 192.168.0.20\n" [])
  received ← invoke (recvfrom sockfd buffer_size)
  if is_minus_one received.code then (do invoke (perror "recvfrom"); pure buffer) else do
    from ← invoke (inet_ntoa received.num)
    invoke (printf_text "Received %zd bytes from %s\n" (received.code ∷ []) from.bytes)
    let filled = overlay received.bytes buffer
    print_headers source_first memory filled
    invoke (sleep 1)
    pure filled

-- The first `n` turns of the loop, which has no end.
unfoldable pub turns : ℕ → Bool → ℤ → Ptr → List ℕ → P (List ℕ)
unfolding turn
turns zero source_first sockfd memory buffer = pure buffer
turns (suc n) source_first sockfd memory buffer = do
  before ← turns n source_first sockfd memory buffer
  turn source_first sockfd memory before

-- The program up to the end of the `n`-th turn. The socket address that it fills in is given to no
-- call.
unfoldable pub main : ℕ → Bool → List ℕ → P (List ℕ)
main n source_first mac = do
  protocol ← invoke (htons eth_p_all)
  sockfd ← invoke (socket "AF_PACKET, SOCK_RAW, ETH_P_ALL")
  if is_minus_one sockfd.code then (do invoke (perror "socket"); exit (pos 1)) else do
    sll_addr ← read_bytes mac 0 eth_alen
    index ← invoke (if_nametoindex my_netdev_name)
    memory ← invoke (malloc buffer_size)
    turns n source_first sockfd.code memory.ptr memory.bytes
