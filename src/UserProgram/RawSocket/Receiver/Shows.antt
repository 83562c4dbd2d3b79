-- ===== src/UserProgram/RawSocket/Receiver/Shows.antt =====
-- What the receiving program shows of the packets that arrive.
use linux_device_drivers.Base.{
  ℕ, ℤ, ◌+◌, ◌≤◌, ◌≡◌, Bool, true, false, String, some, List, [], ◌∷◌, ◌++◌, pos, arith, length,
  get_or,
}
use linux_device_drivers.Machine.{
  Ptr, is_addr, St, Env, Log, Outcome, ok, exited, fault, Returns, Returns-and_then, after,
}
use linux_device_drivers.Machine.Resources.{Resource, resource, memory, nested}
use linux_device_drivers.Posix.{Call, posix_tracked, printf, malloc, descriptor_of, is_null, id_of}
use linux_device_drivers.UserProgram.RawSocket.Request.{newest_memory, newest_socket}
use linux_device_drivers.UserProgram.RawSocket.Receiver.{
  buffer_size, address_of, print_headers, print_ip,
}
use linux_device_drivers.UserProgram.RawSocket.Receiver.Arrivals.{
  arrivals, printed, buffer_of, report,
}

-- A state of the loop: the buffer and the lines are those of the arrivals.
pub record Tells (fd : ℤ) (at : Ptr) (old : List ℕ) (base : List Resource) (n : ℕ) (buffer : List ℕ)
    (t : St Call (Unit {0})) : Type 0 where
  pub turned : length (arrivals t.log) ≡ n
  pub holds : buffer ≡ buffer_of old (arrivals t.log)
  pub tells : printed t.log ≡ report at old (arrivals t.log)
  pub size : length buffer ≡ buffer_size
  pub open_still : nested t.log ≡ some base
  pub same_memory : newest_memory t.log ≡ (at, old)
  pub same_socket : newest_socket t.log ≡ fd

-- Calls that take, give back and receive nothing, and print these lines.
abbrev pub Prints : List (String × List ℤ) → St Call (Unit {0}) → St Call (Unit {0}) → Type 0
Prints lines s t =
    (printed t.log ≡ lines ++ printed s.log)
    × (arrivals t.log ≡ arrivals s.log)
    × (nested t.log ≡ nested s.log)
    × (newest_memory t.log ≡ newest_memory s.log)
    × (newest_socket t.log ≡ newest_socket s.log)

abbrev pub header_lines : Ptr → List ℕ → List (String × List ℤ)
header_lines at buffer =
    ("  ICMPv6 type: %d, code: %d\n", pos (get_or buffer 34 0) ∷ pos (get_or buffer 35 0) ∷ [])
    ∷ (
      "  Ethernet source: %pM, destination: %pM\n",
      pos (address_of at + 6) ∷ pos (address_of at) ∷ [],
    )
    ∷ []

module _ (first : Bool) (buffer : List ℕ) (env : Env Call) (s : St Call (Unit {0})) where
  print_ip_lem : 34 ≤ length buffer → Returns (λ _ t. Prints [] s t) (print_ip first buffer env s)
  unfolding print_ip nested printed arrivals newest_memory newest_socket
  print_ip_lem long = ground arith

module _ (first : Bool) (at : Ptr) (buffer : List ℕ) (env : Env Call) (s : St Call (Unit {0})) where
  pub print_headers_lem :
      is_null at ≡ false
      → 36 ≤ length buffer
      → Returns (λ _ t. Prints (header_lines at buffer) s t) (print_headers first at buffer env s)
  unfolding print_headers nested printed arrivals newest_memory newest_socket
  print_headers_lem found long =
      let line =
        printf "  Ethernet source: %pM, destination: %pM\n"
          (pos (address_of at + 6) ∷ pos (address_of at) ∷ []) in
      let asked = after env line s in
      rw found (
        Returns-and_then (λ _ t. Prints [] asked t) (λ _ t. Prints (header_lines at buffer) s t)
          (print_ip first buffer env asked) _ (λ _ t h. ground arith)
          (print_ip_lem first buffer env asked (omega arith)))

-- `malloc` finds memory, of the size asked for.
pub record FindsMemory (env : Env Call) : Type 0 where
  pub finds : (l : Log Call) → is_addr (env l (malloc buffer_size)).ptr ≡ true
  pub sized : (l : Log Call) → length (env l (malloc buffer_size)).bytes ≡ buffer_size

-- Where the program is after `n` turns.
abbrev pub After : List Resource → ℕ → Outcome Call (Unit {0}) (List ℕ) → Type 0
After base n (ok buffer t) =
    let (at, old) = newest_memory t.log in
    let fd = newest_socket t.log in
    Tells fd at old (resource memory (id_of at) ∷ (descriptor_of fd ++ base)) n buffer t
After base n (exited z t) =
    (z ≡ pos 1) × (arrivals t.log ≡ []) × (printed t.log ≡ []) × (nested t.log ≡ some base)
After base n (fault f t) = ⊥
