-- ===== src/UserProgram/RawSocket/Run.antt =====
-- How the sender ends, and what it has sent.
use linux_device_drivers.Base.{
  ℕ, ℤ, pos, Bool, true, false, is_minus_one, ◌≡◌, ◌⊎◌, inl, inr, some, List, [], ◌∷◌, ◌++◌, arith,
  length,
}
use linux_device_drivers.Machine.{
  Ptr, null, err_ptr, addr, St, Env, Log, Reply, Outcome, ok, exited, fault, null_dereference,
  after, Returns, Returns-mono,
}
use linux_device_drivers.Machine.Resources.{Resource, resource, memory, nested}
use linux_device_drivers.Posix.{
  Call, posix_tracked, id_of, descriptor_of, malloc, htons, inet_addr, socket, sendto,
  if_nametoindex,
}
use linux_device_drivers.UserProgram.RawSocket.{
  main, build_request, packet_size, eth_p_all, my_netdev_name, destination_ip,
}
use linux_device_drivers.UserProgram.RawSocket.Request.{
  IsRequest, Goes, asked, located, sent, newest_memory, newest_socket, build_request-IsRequest,
  Unsent,
}

-- `malloc` returns NULL, or the address of as many bytes as were asked for.
abbrev pub IsBlock : Ptr → List ℕ → Type 0
IsBlock null bytes = Unit {0}
IsBlock (err_ptr _) bytes = ⊥
IsBlock (addr _) bytes = length bytes ≡ packet_size

abbrev pub Allocates : Env Call → Type 0
Allocates env =
    (l : Log Call) → IsBlock (env l (malloc packet_size)).ptr (env l (malloc packet_size)).bytes

-- What the newest `sendto` has returned.
abbrev pub sending : Call → Reply → ℤ → ℤ
sending (sendto _ _ _) r older = r.code
sending _ r older = older

unfoldable pub newest_sending : Log Call → ℤ
newest_sending [] = pos 0
newest_sending (e ∷ l) = sending e.call e.reply (newest_sending l)

module _ (P : List ℕ → List ℕ → Type 0) where
  -- One packet that `P` allows in that memory was handed to `sendto`.
  abbrev pub OnePacket : List ℕ → List (List ℕ) → List (List ℕ) → Type 0
  OnePacket old before [] = ⊥
  OnePacket old before (p ∷ rest) = (rest ≡ before) × P old p

  -- The socket and the memory are still held after a packet, whose sending has failed or not.
  abbrev pub LeavesOpen : Bool → List (List ℕ) → List Resource → Log Call → Type 0
  LeavesOpen failed before base l =
      OnePacket (newest_memory l).1 before (sent l)
      × (is_minus_one (newest_sending l) ≡ failed)
      × (nested l
          ≡ some (
              resource memory (id_of (newest_memory l).0)
              ∷ (descriptor_of (newest_socket l) ++ base)))

  abbrev pub EndsWith : List (List ℕ) → List Resource → Outcome Call (Unit {0}) (Unit {0}) → Type 0
  EndsWith before base (ok _ t) = LeavesOpen false before base t.log
  EndsWith before base (exited z t) =
      (z ≡ pos 1)
      × (LeavesOpen true before base t.log
          ⊎ (is_minus_one (newest_socket t.log) ≡ true)
            × (sent t.log ≡ before)
            × (nested t.log ≡ some base))
  EndsWith before base (fault f t) =
      (f ≡ null_dereference)
      × ((newest_memory t.log).0 ≡ null)
      × (sent t.log ≡ before)
      × (nested t.log ≡ some (descriptor_of (newest_socket t.log) ++ base))

  main-EndsWith :
      (mac : List ℕ) (env : Env Call) (s : St Call (Unit {0})) (base : List Resource)
      → ((old : List ℕ) (t : St Call (Unit {0}))
          → length old ≡ packet_size
          → Returns (λ p u. P old p × Unsent t.log u.log) (build_request mac old env t))
      → length mac ≡ 6
      → Allocates env
      → nested s.log ≡ some base
      → EndsWith (sent s.log) base (main mac env s)
  unfolding main nested sent newest_memory newest_socket newest_sending
  main-EndsWith mac env s base builds six valid h = ground (
    arith,
    valid named.log,
    builds (env named.log (malloc packet_size)).bytes (after env (malloc packet_size) named),
  )
    where
      asked : St Call (Unit {0})
      asked = after env (htons eth_p_all) s

      opened : St Call (Unit {0})
      opened = after env (socket "AF_PACKET, SOCK_RAW, ETH_P_ALL") asked

      named : St Call (Unit {0})
      named = after env (if_nametoindex my_netdev_name) opened

-- How the program may end.
abbrev pub Ends :
    List ℕ → List (List ℕ) → List Resource → Outcome Call (Unit {0}) (Unit {0}) → Type 0
Ends mac = EndsWith (IsRequest mac)

-- If `malloc` returns NULL or as many bytes as were asked for, and the address of the interface has
-- six bytes: the program hands one echo request to `sendto` and, if that succeeds, ends normally or, if
-- it fails, exits with 1; it then still holds its socket and its memory. Or it exits with 1 since
-- `socket` has failed, with nothing sent. If `malloc` returns NULL it writes through that pointer.
pub raw_main-Ends :
    (mac : List ℕ) (env : Env Call) (s : St Call (Unit {0})) (base : List Resource)
    → length mac ≡ 6
    → Allocates env
    → nested s.log ≡ some base
    → Ends mac (sent s.log) base (main mac env s)
raw_main-Ends mac env s base six valid h =
    main-EndsWith (IsRequest mac) mac env s base
      (λ old t size.
        Returns-mono _ _ (build_request mac old env t) (λ p u k. (k.0.0, k.1))
          (build_request-IsRequest old env t mac size six))
      six valid h

-- What `inet_addr` makes of the texts of the two addresses, whenever it is called.
pub record Resolves (env : Env Call) (source dest : ℕ) : Type 0 where
  pub source_told : (l : Log Call) → (env l (inet_addr "192.168.1.10")).num ≡ source
  pub dest_told : (l : Log Call) → (env l (inet_addr destination_ip)).num ≡ dest

-- The same, with the addresses of the packet.
pub raw_main-EndsAddressed :
    (mac : List ℕ) (env : Env Call) (s : St Call (Unit {0})) (base : List Resource)
    (source dest : ℕ)
    → Resolves env source dest
    → length mac ≡ 6
    → Allocates env
    → nested s.log ≡ some base
    → EndsWith
        (λ old p. IsRequest mac old p × Goes source dest p)
        (sent s.log)
        base
        (main mac env s)
raw_main-EndsAddressed mac env s base source dest resolves six valid h =
    main-EndsWith (λ old p. IsRequest mac old p × Goes source dest p) mac env s base
      (λ old t size.
        rw (resolves.source_told (asked env t).log, resolves.dest_told (located env t).log) at
          (build_request-IsRequest old env t mac size six))
      six valid h

-- Every packet that a run has handed to `sendto` is one that `Q` holds of.
module _ (Q : List ℕ → Type 0) where
  abbrev pub All : List (List ℕ) → Type 0
  All [] = Unit {0}
  All (p ∷ ps) = Q p × All ps

  abbrev pub SentAll : Outcome Call (Unit {0}) (Unit {0}) → Type 0
  SentAll (ok _ t) = All (sent t.log)
  SentAll (exited _ t) = All (sent t.log)
  SentAll (fault _ t) = All (sent t.log)

  nothing-All : (ps : List (List ℕ)) → ps ≡ [] → All ps
  nothing-All [] e = tt
  nothing-All (p ∷ ps) e = cc

  module _ (P : List ℕ → List ℕ → Type 0) (implies : (old p : List ℕ) → P old p → Q p) where
    one-All : (old : List ℕ) (ps : List (List ℕ)) → OnePacket P old [] ps → All ps
    one-All old [] h = tt
    one-All old (p ∷ ps) h = (implies old p h.1, nothing-All ps h.0)

    pub EndsWith-SentAll :
        (base : List Resource) (o : Outcome Call (Unit {0}) (Unit {0}))
        → EndsWith P [] base o
        → SentAll o
    EndsWith-SentAll base (ok _ t) h = one-All (newest_memory t.log).1 (sent t.log) h.0
    EndsWith-SentAll base (exited z t) h = elim h.1 [
      | inl one ↦ one-All (newest_memory t.log).1 (sent t.log) one.0
      | inr none ↦ nothing-All (sent t.log) none.1
    ]
    EndsWith-SentAll base (fault f t) h = nothing-All (sent t.log) h.2
