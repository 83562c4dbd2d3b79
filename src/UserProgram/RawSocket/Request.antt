-- ===== src/UserProgram/RawSocket/Request.antt =====
-- What the echo request holds, byte for byte.
use linux_device_drivers.Base.{
  word16, word32, ℕ, ℤ, negsuc, ◌+◌, ◌*◌, ◌-◌, ◌≤◌, ◌≡◌, List, [], ◌∷◌, ◌++◌, arith, refl,
  length-overlay, length-overlay_at, replicate, length, drop, take, get_or, overlay, overlay_at,
  overlay_at-eq-append, overlay-eq-append, length-drop, length-append, drop-drop,
}
use mathlib.Core.List.{append_assoc}
use linux_device_drivers.Machine.{St, Env, Log, Reply, Ptr, null, Returns, after}
use linux_device_drivers.Machine.Resources.{nested}
use linux_device_drivers.Kernel.{IpHdr}
use linux_device_drivers.Posix.{
  Call, posix_tracked, htons, inet_addr, in_checksum, sendto, malloc, socket,
}
use linux_device_drivers.UserProgram.RawSocket.{
  ip_bytes, build_request, packet_size, ipproto_icmpv6, icmpv6_echo_request, eth_p_ip,
  destination_ip,
}

-- The request that `mac` sends, in memory that held `memory`.
pub record IsRequest (mac memory packet : List ℕ) : Type 0 where
  pub size : length packet ≡ 106
  pub broadcast : take 6 packet ≡ replicate 6 0xff
  pub source : take 6 (drop 6 packet) ≡ mac
  pub ipv4 : get_or packet 14 0 ≡ 0x45
  -- The lower byte of the total length stands first: in the order of the network it says 23552.
  pub total : get_or packet 16 0 + 256 * get_or packet 17 0 ≡ packet_size - 14
  pub lives : get_or packet 22 0 ≡ 64
  pub protocol : get_or packet 23 0 ≡ ipproto_icmpv6
  pub type : get_or packet 34 0 ≡ icmpv6_echo_request
  pub code : get_or packet 35 0 ≡ 0
  pub rest : drop 36 packet ≡ drop 36 memory

-- The packet goes from one address to another, as `inet_addr` has made numbers of their texts.
pub record Goes (source dest : ℕ) (packet : List ℕ) : Type 0 where
  pub from_source : take 4 (drop 26 packet) ≡ word32 source
  pub to_dest : take 4 (drop 30 packet) ≡ word32 dest

abbrev header : (saddr daddr sum : ℕ) → IpHdr
header saddr daddr sum = record {
  version = 4;
  ihl = 5;
  tos = 0;
  tot_len = 92;
  id = 0;
  frag_off = 0;
  ttl = 64;
  protocol = 58;
  saddr = saddr;
  daddr = daddr;
  check = sum;
}

-- The packets handed to `sendto`, newest first.
abbrev pub add_sent : Call → List (List ℕ) → List (List ℕ)
add_sent (sendto _ p _) older = p ∷ older
add_sent _ older = older

unfoldable pub sent : Log Call → List (List ℕ)
sent [] = []
sent (e ∷ l) = add_sent e.call (sent l)

-- The newest memory and the newest socket.
abbrev pub memory_of : Call → Reply → Ptr × List ℕ → Ptr × List ℕ
memory_of (malloc _) r older = (r.ptr, r.bytes)
memory_of _ r older = older

unfoldable pub newest_memory : Log Call → Ptr × List ℕ
newest_memory [] = (null, [])
newest_memory (e ∷ l) = memory_of e.call e.reply (newest_memory l)

abbrev pub socket_of : Call → Reply → ℤ → ℤ
socket_of (socket _) r older = r.code
socket_of _ r older = older

unfoldable pub newest_socket : Log Call → ℤ
newest_socket [] = negsuc 0
newest_socket (e ∷ l) = socket_of e.call e.reply (newest_socket l)

-- Calls between two logs that neither send, nor take or give back anything.
abbrev pub Unsent : Log Call → Log Call → Type 0
Unsent before after =
    (nested after ≡ nested before)
    × (sent after ≡ sent before)
    × (newest_memory after ≡ newest_memory before)
    × (newest_socket after ≡ newest_socket before)

-- Three headers written one behind the other.
three_headers :
    (a b c memory : List ℕ) (i j : ℕ)
    → length a ≡ i
    → i + length b ≡ j
    → j + length c ≤ length memory
    → overlay_at j c (overlay_at i b (overlay a memory))
      ≡ (a ++ b) ++ (c ++ drop (j + length c) memory)
three_headers a b c memory i j p q h = ground (
  arith,
  overlay-eq-append a memory,
  overlay_at-eq-append b a (drop (length a) memory) i,
  overlay_at-eq-append c (a ++ b) (drop (length b) (drop (length a) memory)) j,
  append_assoc a b (drop (length b) (drop (length a) memory)),
  length-append a b,
  length-drop (length a) memory,
  length-drop (length b) (drop (length a) memory),
  drop-drop (length b) (length a) memory,
  drop-drop (length c) (length a + length b) memory,
)

-- A packet of these three headers is a request, whatever the calls have answered.
IsRequest-of_headers :
    (a b c d e f proto saddr daddr sum : ℕ) (memory packet : List ℕ)
    → length memory ≡ 106
    → packet
      ≡ (replicate 6 0xff
          ++ (a ∷ b ∷ c ∷ d ∷ e ∷ f ∷ word16 proto)
          ++ ip_bytes (header saddr daddr sum))
        ++ (icmpv6_echo_request ∷ 0 ∷ drop 36 memory)
    → IsRequest (a ∷ b ∷ c ∷ d ∷ e ∷ f ∷ []) memory packet × Goes saddr daddr packet
IsRequest-of_headers a b c d e f proto saddr daddr sum memory packet h p =
    rw p (ground (arith, length-drop 36 memory))

module _ (env : Env Call) (s : St Call (Unit {0})) where
  abbrev pub asked : St Call (Unit {0})
  asked = after env (htons eth_p_ip) s

  abbrev pub located : St Call (Unit {0})
  located = after env (inet_addr "192.168.1.10") asked

  -- What `inet_addr` makes of the texts of the two addresses.
  abbrev pub source_of : ℕ
  source_of = (env asked.log (inet_addr "192.168.1.10")).num

  abbrev pub dest_of : ℕ
  dest_of = (env located.log (inet_addr destination_ip)).num

module _ (memory : List ℕ) (env : Env Call) (s : St Call (Unit {0})) where
  pub build_request-IsRequest :
      (mac : List ℕ)
      → length memory ≡ 106
      → length mac ≡ 6
      → Returns
          (λ p t.
            (IsRequest mac memory p × Goes (source_of env s) (dest_of env s) p)
            × Unsent s.log t.log)
          (build_request mac memory env s)
  unfolding build_request nested sent newest_memory newest_socket
  build_request-IsRequest [] size h = absurd (omega arith)
  build_request-IsRequest (a ∷ []) size h = absurd (omega arith)
  build_request-IsRequest (a ∷ b ∷ []) size h = absurd (omega arith)
  build_request-IsRequest (a ∷ b ∷ c ∷ []) size h = absurd (omega arith)
  build_request-IsRequest (a ∷ b ∷ c ∷ d ∷ []) size h = absurd (omega arith)
  build_request-IsRequest (a ∷ b ∷ c ∷ d ∷ e ∷ []) size h = absurd (omega arith)
  build_request-IsRequest (a ∷ b ∷ c ∷ d ∷ e ∷ f ∷ g ∷ r) size h = absurd (omega arith)
  build_request-IsRequest (a ∷ b ∷ c ∷ d ∷ e ∷ f ∷ []) size h = ground (
    arith,
    written,
    length-overlay eth memory,
    length-overlay_at 14 (ip_bytes (header saddr daddr sum)) (overlay eth memory),
    IsRequest-of_headers a b c d e f proto saddr daddr sum memory (
        overlay_at 34 (icmpv6_echo_request ∷ 0 ∷ [])
          (overlay_at 14 (ip_bytes (header saddr daddr sum)) (overlay eth memory))),
  )
    where
      proto : ℕ
      proto = (env s.log (htons eth_p_ip)).num

      eth : List ℕ
      eth = replicate 6 0xff ++ (a ∷ b ∷ c ∷ d ∷ e ∷ f ∷ word16 proto)

      saddr : ℕ
      saddr = source_of env s

      addressed : St Call (Unit {0})
      addressed = after env (inet_addr destination_ip) (located env s)

      daddr : ℕ
      daddr = dest_of env s

      sum : ℕ
      sum = (env addressed.log (in_checksum (ip_bytes (header saddr daddr 0)))).num

      written :
          overlay_at 34
            (icmpv6_echo_request ∷ 0 ∷ [])
            (overlay_at 14 (ip_bytes (header saddr daddr sum)) (overlay eth memory))
          ≡ (eth ++ ip_bytes (header saddr daddr sum)) ++ (icmpv6_echo_request ∷ 0 ∷ drop 36 memory)
      written =
          three_headers eth (ip_bytes (header saddr daddr sum)) (icmpv6_echo_request ∷ 0 ∷ [])
            memory 14 34 refl refl (omega arith)
