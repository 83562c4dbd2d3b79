-- ===== src/UserProgram/Scan.antt =====
-- Wifi-userSpace.c: asks the kernel for a Wi-Fi scan over netlink.
pub mod Handler
pub mod Run
use linux_device_drivers.Base.{
  ℕ, String, zero, suc, ◌/◌, ◌+◌, ℤ, pos, negsuc, neg, Option, none, some, List, [], ◌∷◌, ◌++◌,
  is_neg, is_nonzero, if◌then◌else◌, overlay, c_string, take, Bool, true, false,
}
use linux_device_drivers.Machine.{Ptr, pure, ◌>>=◌, ◌>>◌, invoke, crash, out_of_bounds}
use linux_device_drivers.Posix.{
  P, fprintf_stderr, printf, print_string, nl_socket_alloc, nl_socket_free, genl_connect,
  genl_ctrl_alloc_cache, nlmsg_alloc, nlmsg_free, genlmsg_put, nla_put_ifindex, if_nametoindex,
  nl_send_auto_complete, nl_recvmsgs, is_null,
}

-- `struct wifi_scan_result`, with the 32 bytes of `ssid`.
pub record ScanResult : Type 0 where
  pub ssid : List ℕ
  pub signal_strength : ℤ

-- What libnl's parsing finds under NL80211_ATTR_BSS: the octets of the BSSID, six by the documentation, and `signal_mbm` of the
-- information elements. Parsing itself is not in the repository.
pub record Bss : Type 0 where
  pub bssid : Option (List ℕ)
  pub signal_mbm : Option ℤ

-- C's division by a positive number rounds towards 0.
abbrev pub divide : ℤ → ℕ → ℤ
divide (pos n) d = pos (n / d)
divide (negsuc n) d = neg (suc n / d)

-- `snprintf(dest, 32, "%s", source)`
abbrev pub snprintf_32 : List ℕ → List ℕ → P (List ℕ)
snprintf_32 dest source = elim (c_string source) [
  | none ↦ crash out_of_bounds
  | some text ↦ pure (overlay (take 31 text ++ (0 ∷ [])) dest)
]

unfoldable pub record_signal : List ℕ → ℤ → ScanResult → P ScanResult
record_signal bssid mbm result =
    if is_nonzero mbm
    then (do
      ssid ← snprintf_32 result.ssid bssid
      pure (record { ssid = ssid; signal_strength = divide mbm 100 }))
    else pure result

-- `none` stands for a message without NL80211_ATTR_BSS. The result is what `arg` points to; the
-- returned NL_SKIP is always the same.
unfoldable pub handle_wifi_scan : Option Bss → ScanResult → P ScanResult
unfolding record_signal
handle_wifi_scan none result = pure result
handle_wifi_scan (some bss) result = elim bss.bssid [
  | none ↦ pure result
  | some bssid ↦ elim bss.signal_mbm [
    | none ↦ pure result
    | some mbm ↦ record_signal bssid mbm result
  ]
]

abbrev pub exit_failure : ℤ
exit_failure = pos 1

-- A failed step: the message, the two frees, and EXIT_FAILURE.
unfoldable pub give_up : String → Ptr → Ptr → P ℤ
give_up text msg nlsock = do
  invoke (fprintf_stderr text)
  invoke (nlmsg_free msg)
  invoke (nl_socket_free nlsock)
  pure exit_failure

-- The rest of `main` from `nlmsg_alloc` on. `stack` is what the memory of `scan_result` holds at the
-- start. Its address is given to no call, so that this is what the program prints.
unfoldable pub scan : ScanResult → Ptr → P ℤ
unfolding give_up
scan stack nlsock = do
  msg ← invoke nlmsg_alloc
  if is_null msg.ptr
      then (do
        invoke (fprintf_stderr "Error: Failed to allocate netlink message\n")
        invoke (nl_socket_free nlsock)
        pure exit_failure)
      else do
        invoke (genlmsg_put msg.ptr nlsock)
        index ← invoke (if_nametoindex "wlan0")
        invoke (nla_put_ifindex msg.ptr index.num)
        ret ← invoke (nl_send_auto_complete nlsock msg.ptr)
        if is_neg ret.code
            then give_up "Error: Failed to send netlink message\n" msg.ptr nlsock
            else do
              ret ← invoke (nl_recvmsgs nlsock)
              if is_neg ret.code
                  then give_up "Error: Failed to receive netlink messages\n" msg.ptr nlsock
                  else do
                    invoke (printf "Wi-Fi scan result:\n" [])
                    print_string "SSID: %s\n" [] stack.ssid
                    invoke (printf "Signal Strength: %d dBm\n" (stack.signal_strength ∷ []))
                    invoke (nlmsg_free msg.ptr)
                    invoke (nl_socket_free nlsock)
                    pure (pos 0)

-- `genl_ctrl_alloc_cache(nlsock, &nlsock)` writes the address of the cache over that of the socket.
unfoldable pub main : ScanResult → P ℤ
main stack = do
  nlsock ← invoke nl_socket_alloc
  if is_null nlsock.ptr
      then (do
        invoke (fprintf_stderr "Error: Failed to allocate netlink socket\n")
        pure exit_failure)
      else do
        ret ← invoke (genl_connect nlsock.ptr)
        if is_neg ret.code
            then (do
              invoke (fprintf_stderr "Error: Failed to connect to generic netlink\n")
              invoke (nl_socket_free nlsock.ptr)
              pure exit_failure)
            else do
              cache ← invoke (genl_ctrl_alloc_cache nlsock.ptr)
              if is_neg cache.code
                  then (do
                    invoke (fprintf_stderr "Error: Failed to allocate generic netlink cache\n")
                    invoke (nl_socket_free nlsock.ptr)
                    pure exit_failure)
                  else scan stack cache.ptr
