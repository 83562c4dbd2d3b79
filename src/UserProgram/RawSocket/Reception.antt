-- ===== src/UserProgram/RawSocket/Reception.antt =====
-- What the receiving program of net_usp.c shows of the packets that its sending part sends.
use linux_device_drivers.Base.{
  number_of-word32, ℕ, ℤ, ◌+◌, ◌<◌, ◌≤◌, ◌^◌, ◌≡◌, ◌∙◌, ap, Bool, some, List, take, drop, pos, [],
  ◌∷◌, arith, length, overlay, false, refl, if◌then◌else◌, slice-ext, get_or-overlay,
  length-overlay,
}
use linux_device_drivers.Machine.{Ptr, Reply, St, Env, Log, Returns, Returns-mono}
use linux_device_drivers.Machine.Resources.{Resource, nested}
use linux_device_drivers.Posix.{Call, posix_tracked, recvfrom, inet_ntoa, is_null}
use linux_device_drivers.UserProgram.RawSocket.{main}
use linux_device_drivers.UserProgram.RawSocket.Request.{IsRequest, Goes, sent}
use linux_device_drivers.UserProgram.RawSocket.Run.{
  Allocates, Resolves, SentAll, EndsWith-SentAll, raw_main-EndsAddressed,
}
use linux_device_drivers.UserProgram.RawSocket.Receiver.{buffer_size, turn}
use linux_device_drivers.UserProgram.RawSocket.Receiver.Arrivals.{printed}
use linux_device_drivers.UserProgram.RawSocket.Receiver.Fields.{
  NewestLine, byte_of, newest_texts, latter, turn_lem,
}

-- A field of a packet that lies over a longer buffer.
field-overlay :
    (packet buffer : List ℕ) (m : ℕ)
    → length packet ≤ length buffer
    → m + 4 ≤ length packet
    → take 4 (drop m (overlay packet buffer)) ≡ take 4 (drop m packet)
field-overlay packet buffer m fits inside =
    let long : length (overlay packet buffer) ≡ length buffer = length-overlay packet buffer in
    slice-ext 0 4 m (overlay packet buffer) packet (omega arith) inside
      (λ j l l'. let same = get_or-overlay packet buffer j 0 (omega arith) in ground arith)

-- The answer of a system where this packet arrives next, else that of `r`.
abbrev pub bring : List ℕ → Call → Reply → Reply
bring packet (recvfrom _ _) r = record r { code = pos (length packet); bytes = packet }
bring packet _ r = r

abbrev pub bringing : List ℕ → Env Call → Env Call
bringing packet env l c = bring packet c (env l c)

-- A receiving program that has memory, on a system where `inet_ntoa` makes these texts of numbers.
pub record Listens (at : Ptr) (buffer : List ℕ) (env : Env Call) (text : ℕ → List ℕ) : Type 0 where
  pub found : is_null at ≡ false
  pub size : length buffer ≡ buffer_size
  pub writes : (l : Log Call) (n : ℕ) → (env l (inet_ntoa n)).bytes ≡ text n

module _ (first : Bool) (fd : ℤ) (at : Ptr) (buffer : List ℕ) (env : Env Call)
    (s : St Call (Unit {0})) (text : ℕ → List ℕ) (source dest : ℕ) where
  -- The one text that the line on IP shows.
  abbrev pub shown : List ℕ
  shown = if first then text dest else text source

  -- A turn of the receiving program that is brought this packet returns. It shows type 128 and code
  -- 0, and one text for both addresses.
  abbrev pub Shows : List ℕ → Type 0
  Shows packet =
      Returns (λ _ t. NewestLine 128 0 (printed t.log) × (newest_texts t.log ≡ shown ∷ shown ∷ []))
        (turn first fd at buffer (bringing packet env) s)

  latter-Goes :
      (packet : List ℕ)
      → length packet ≤ length buffer
      → 34 ≤ length packet
      → Goes source dest packet
      → source < 2 ^ 32
      → dest < 2 ^ 32
      → text (latter first (overlay packet buffer)) ≡ shown
  latter-Goes packet fits long goes narrow narrow2 =
      let a = field-overlay packet buffer 26 fits (omega arith) in
      let b = field-overlay packet buffer 30 fits (omega arith) in
      ground (
        arith,
        a,
        b,
        goes.from_source,
        goes.to_dest,
        number_of-word32 source narrow,
        number_of-word32 dest narrow2,
      )

  request-Shows :
      (mac old packet : List ℕ)
      → Listens at buffer env text
      → source < 2 ^ 32
      → dest < 2 ^ 32
      → IsRequest mac old packet
      → Goes source dest packet
      → Shows packet
  request-Shows mac old packet h narrow narrow2 r goes =
      let size = r.size in
      let room = h.size in
      let same = latter-Goes packet (omega arith) (omega arith) goes narrow narrow2 in
      let type : byte_of packet buffer 34 ≡ 128 = ground (arith, r.type) in
      let code : byte_of packet buffer 35 ≡ 0 = ground (arith, r.code) in
      Returns-mono _ _ (turn first fd at buffer (bringing packet env) s)
        (λ filled t k. (
          rw (type, code) at k.0,
          k.1 ∙ ap (λ x. x ∷ x ∷ []) (h.writes _ (latter first (overlay packet buffer)) ∙ same),
        ))
        (turn_lem first fd at buffer (bringing packet env) s h.found h.size refl (omega arith))

  -- The sending part, with six bytes of address and a `malloc` that returns NULL or as many bytes as
  -- were asked for, has sent nothing when it starts. Then every packet that it hands to `sendto` is one
  -- that the receiving part shows, if it arrives unchanged in a turn with memory for the buffer: the
  -- turn returns, and shows type 128 and code 0. For both addresses it shows one text, that of the
  -- number that the sender was told for the destination if `inet_ntoa` is called for the source first,
  -- else of that for the source; here `inet_addr` makes the same number of a text each time, of 32
  -- bits, and `inet_ntoa` the same text of a number.
  pub raw_main-Shown :
      (mac : List ℕ) (sender : Env Call) (start : St Call (Unit {0})) (base : List Resource)
      → Listens at buffer env text
      → source < 2 ^ 32
      → dest < 2 ^ 32
      → length mac ≡ 6
      → Allocates sender
      → Resolves sender source dest
      → sent start.log ≡ []
      → nested start.log ≡ some base
      → SentAll Shows (main mac sender start)
  raw_main-Shown mac sender start base h narrow narrow2 six valid resolves unsent held =
      EndsWith-SentAll Shows (λ old p. IsRequest mac old p × Goes source dest p)
        (λ old p k. request-Shows mac old p h narrow narrow2 k.0 k.1) base (main mac sender start)
        (rw unsent at
          (raw_main-EndsAddressed mac sender start base source dest resolves six valid held))
