-- ===== src/UserProgram/RawSocket/Receiver/Fields.antt =====
-- What the receiving program shows of one packet, and what it does not.
use linux_device_drivers.Base.{
  number_of, ℕ, ℤ, ◌≤◌, ◌≡◌, Bool, false, String, List, [], ◌∷◌, pos, arith, is_minus_one,
  if◌then◌else◌, overlay, length, get_or, ltb, take, drop, ◌+◌, length-overlay, get_or-overlay,
}
use linux_device_drivers.Machine.{
  Ptr, St, Env, Log, Outcome, ok, exited, fault, Returns, Returns-and_then, after,
}
use linux_device_drivers.Posix.{
  Call, printf, printf_text, printf_texts, inet_ntoa, recvfrom, is_null,
}
use linux_device_drivers.UserProgram.RawSocket.Receiver.{
  buffer_size, address_of, turn, print_headers, print_ip,
}
use linux_device_drivers.UserProgram.RawSocket.Receiver.Arrivals.{printed}
use linux_device_drivers.UserProgram.RawSocket.Receiver.Shows.{
  Prints, header_lines, print_headers_lem,
}

-- The texts of the newest line with two texts.
abbrev pub texts_of : Call → List (List ℕ) → List (List ℕ)
texts_of (printf_texts _ texts) older = texts
texts_of _ older = older

unfoldable pub newest_texts : Log Call → List (List ℕ)
newest_texts [] = []
newest_texts (e ∷ l) = texts_of e.call (newest_texts l)

-- A byte of the packet, or where it is too short, of what the buffer held.
abbrev pub byte_of : List ℕ → List ℕ → ℕ → ℕ
byte_of packet old i = if ltb i (length packet) then get_or packet i 0 else get_or old i 0

-- The newest line of numbers is on the type and the code of these bytes.
abbrev pub NewestLine : ℕ → ℕ → List (String × List ℤ) → Type 0
NewestLine type code [] = ⊥
NewestLine type code (line ∷ older) =
    line ≡ ("  ICMPv6 type: %d, code: %d\n", pos type ∷ pos code ∷ [])

Returns-and :
    {A : Type 0} (P Q : A → St Call (Unit {0}) → Type 0) (o : Outcome Call (Unit {0}) A)
    → Returns P o
    → Returns Q o
    → Returns (λ a s. P a s × Q a s) o
Returns-and P Q (ok a s) h k = (h, k)
Returns-and P Q (exited z s) h k = h
Returns-and P Q (fault f s) h k = h

module _ (first : Bool) (buffer : List ℕ) where
  -- The numbers given to the two calls of `inet_ntoa`.
  abbrev pub former : ℕ
  former = number_of (if first then take 4 (drop 26 buffer) else take 4 (drop 30 buffer))

  abbrev pub latter : ℕ
  latter = number_of (if first then take 4 (drop 30 buffer) else take 4 (drop 26 buffer))

  module _ (env : Env Call) (s : St Call (Unit {0})) where
    -- What the newer of the two calls makes of its address.
    abbrev pub shown_text : List ℕ
    shown_text = (env (after env (inet_ntoa former) s).log (inet_ntoa latter)).bytes

    -- The newest line with two texts shows this one twice.
    abbrev pub ShowsTwice : St Call (Unit {0}) → Type 0
    ShowsTwice t = newest_texts t.log ≡ shown_text ∷ shown_text ∷ []

    print_ip_texts : 34 ≤ length buffer → Returns (λ _. ShowsTwice) (print_ip first buffer env s)
    unfolding print_ip newest_texts
    print_ip_texts long = ground arith

module _ (first : Bool) (at : Ptr) (buffer : List ℕ) (env : Env Call) (s : St Call (Unit {0})) where
  -- The state in which the line on IP is begun.
  abbrev pub ethernet_told : St Call (Unit {0})
  ethernet_told =
      after env
        (printf "  Ethernet source: %pM, destination: %pM\n"
          (pos (address_of at + 6) ∷ pos (address_of at) ∷ []))
        s

  print_headers_texts :
      is_null at ≡ false
      → 36 ≤ length buffer
      → Returns
          (λ _. ShowsTwice first buffer env ethernet_told)
          (print_headers first at buffer env s)
  unfolding print_headers newest_texts
  print_headers_texts found long =
      let Shown = ShowsTwice first buffer env ethernet_told in
      rw found (
        Returns-and_then (λ _. Shown) (λ _. Shown) (print_ip first buffer env ethernet_told) _
          (λ _ t h. ground arith) (print_ip_texts first buffer env ethernet_told (omega arith)))

module _ (first : Bool) (fd : ℤ) (at : Ptr) (buffer : List ℕ) (env : Env Call)
    (s : St Call (Unit {0})) where
  -- The state in which `recvfrom` is called.
  abbrev pub asking : St Call (Unit {0})
  asking = after env (printf "Sending ICMPv6 echo request to 192.168.0.20\n" []) s

  -- The state in which the headers are read, for a packet.
  abbrev pub told : St Call (Unit {0})
  told =
      let r = env asking.log (recvfrom fd buffer_size) in
      let named = after env (inet_ntoa r.num) (after env (recvfrom fd buffer_size) asking) in
      let from = (env (after env (recvfrom fd buffer_size) asking).log (inet_ntoa r.num)).bytes in
      after env (printf_text "Received %zd bytes from %s\n" (r.code ∷ []) from) named

  -- The two lines on the fields of a packet.
  pub turn_lem :
      is_null at ≡ false
      → length buffer ≡ buffer_size
      → let r = env asking.log (recvfrom fd buffer_size) in
        is_minus_one r.code ≡ false
        → length r.bytes ≤ buffer_size
        → Returns
            (λ filled t.
              NewestLine (byte_of r.bytes buffer 34) (byte_of r.bytes buffer 35) (printed t.log)
              × ShowsTwice first
                  (overlay r.bytes buffer)
                  env
                  (ethernet_told first at (overlay r.bytes buffer) env told)
                  t)
            (turn first fd at buffer env s)
  unfolding turn printed newest_texts
  turn_lem found size arrived short =
      let r = env asking.log (recvfrom fd buffer_size) in
      let filled = overlay r.bytes buffer in
      let long : length filled ≡ length buffer = length-overlay r.bytes buffer in
      let type = get_or-overlay r.bytes buffer 34 0 (omega arith) in
      let code = get_or-overlay r.bytes buffer 35 0 (omega arith) in
      let Shown = ShowsTwice first filled env (ethernet_told first at filled env told) in
      rw arrived (
        Returns-and_then (λ _ t. Prints (header_lines at filled) told t × Shown t) _
          (print_headers first at filled env told) _ (λ _ t h. (rw (h.0.0) cc, h.1))
          (Returns-and _ _ (print_headers first at filled env told)
            (print_headers_lem first at filled env told found (omega arith))
            (print_headers_texts first at filled env told found (omega arith))))
