-- ===== src/UserProgram/Scan/Run.antt =====
-- How the scan program ends, what it prints, and that it frees the wrong thing.
use linux_device_drivers.Base.{
  ℕ, suc, ℤ, pos, ◌≡◌, ◌≢◌, ◌⊎◌, c_string, Bool, true, false, not, none, some, [], ◌∷◌, arith,
  is_neg, if◌then◌else◌,
}
use linux_device_drivers.Machine.{
  Ptr, St, Env, Log, Reply, Outcome, ok, exited, fault, out_of_bounds, after,
}
use linux_device_drivers.Machine.Resources.{resource, netlink_socket, netlink_cache, held}
use linux_device_drivers.Posix.{
  Call, posix_tracked, id_of, genl_ctrl_alloc_cache, nl_socket_alloc, genl_connect, nlmsg_alloc,
  nl_send_auto_complete, nl_recvmsgs, is_err, is_null, print_string,
}
use linux_device_drivers.Posix.History.{last_text, last_numbers, failures}
use linux_device_drivers.UserProgram.Scan.{ScanResult, main, scan}

-- Whether a call of the log has made a cache.
abbrev pub makes_cache : Call → Reply → Bool → Bool
makes_cache (genl_ctrl_alloc_cache _) r older = not (is_neg r.code)
makes_cache _ r older = older

unfoldable pub cached : Log Call → Bool
cached [] = false
cached (e ∷ l) = makes_cache e.call e.reply (cached l)

-- Whether a call that the program tests has failed: one that makes something with NULL, any other with
-- a number below zero.
abbrev pub scan_failure : Call → Reply → Bool
scan_failure nl_socket_alloc r = is_null r.ptr
scan_failure (genl_connect _) r = is_neg r.code
scan_failure (genl_ctrl_alloc_cache _) r = is_neg r.code
scan_failure nlmsg_alloc r = is_null r.ptr
scan_failure (nl_send_auto_complete _ _) r = is_neg r.code
scan_failure (nl_recvmsgs _) r = is_neg r.code
scan_failure _ r = false

-- The two lines on the result, after calls that all succeeded.
abbrev pub PrintsStack : ScanResult → ℕ → Log Call → Type 0
PrintsStack stack before l =
    (failures scan_failure l ≡ before)
    × (last_text l ≡ c_string stack.ssid)
    × (last_numbers l ≡ stack.signal_strength ∷ [])

-- How the program may end, started with nothing held and after `before` failures.
abbrev pub Ends : ScanResult → ℕ → Outcome Call (Unit {0}) ℤ → Type 0
Ends stack before (ok z t) =
    ((z ≡ pos 0) × (cached t.log ≡ true) × PrintsStack stack before t.log
      ⊎ (z ≡ pos 1) × (failures scan_failure t.log ≡ suc before))
    × (held t.log ≡ (if cached t.log then none else some []))
Ends stack before (exited z t) = ⊥
Ends stack before (fault f t) =
    (f ≡ out_of_bounds)
    × (c_string stack.ssid ≡ none)
    × (failures scan_failure t.log ≡ before)
    × (cached t.log ≡ true)

-- `nl_socket_alloc` is documented to return NULL or an address.
abbrev pub SocketOrNull : Env Call → Type 0
SocketOrNull env = (l : Log Call) → is_err (env l nl_socket_alloc).ptr ≡ false

-- A socket and a cache that are both allocated have different addresses.
abbrev pub AreApart : Env Call → Type 0
AreApart env =
    (l m : Log Call) (p : Ptr)
    → id_of (env l nl_socket_alloc).ptr ≢ id_of (env m (genl_ctrl_alloc_cache p)).ptr

scan-Ends :
    (stack : ScanResult) (socket cache : Ptr) (env : Env Call) (s : St Call (Unit {0}))
    → held s.log
      ≡ some (resource netlink_cache (id_of cache) ∷ resource netlink_socket (id_of socket) ∷ [])
    → id_of socket ≢ id_of cache
    → cached s.log ≡ true
    → Ends stack (failures scan_failure s.log) (scan stack cache env s)
unfolding scan held cached failures last_text last_numbers print_string
scan-Ends stack socket cache env s h apart made = ground arith

-- Started with nothing held, a socket and a cache having different addresses, the program returns 1
-- exactly if one of the calls that it tests fails: until a cache is made, it then holds nothing. Once
-- one is made, its address has replaced that of the socket, and on every path from there the program
-- gives back a socket that it does not hold. If all calls succeed, it prints what the memory of its
-- result held at the start, whatever was received, and returns 0; if there is no zero byte in the
-- memory of the name, it reads beyond it.
pub scan_main-Ends :
    (stack : ScanResult) (env : Env Call) (s : St Call (Unit {0}))
    → SocketOrNull env
    → AreApart env
    → held s.log ≡ some []
    → cached s.log ≡ false
    → Ends stack (failures scan_failure s.log) (main stack env s)
unfolding main held cached failures
scan_main-Ends stack env s valid apart h made = ground (
  arith,
  valid s.log,
  apart s.log connected.log socket,
  scan-Ends stack socket cache.ptr env (after env (genl_ctrl_alloc_cache socket) connected),
)
  where
    socket : Ptr
    socket = (env s.log nl_socket_alloc).ptr

    connected : St Call (Unit {0})
    connected = after env (genl_connect socket) (after env nl_socket_alloc s)

    cache : Reply
    cache = env connected.log (genl_ctrl_alloc_cache socket)
