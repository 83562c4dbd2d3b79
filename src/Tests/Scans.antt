-- ===== src/Tests/Scans.antt =====
-- The scan program at concrete answers.
use linux_device_drivers.Base.{
  pos, negsuc, refl, Option, none, some, List, [], ◌∷◌, ◌++◌, arith, replicate,
}
use linux_device_drivers.Machine.{Reply, Env, addr}
use linux_device_drivers.Machine.Resources.{held}
use linux_device_drivers.Posix.{Call, nl_socket_alloc, genl_ctrl_alloc_cache}
use linux_device_drivers.Posix.History.{failures}
use linux_device_drivers.UserProgram.Scan
use linux_device_drivers.UserProgram.Scan.{ScanResult, Bss}
use linux_device_drivers.UserProgram.Scan.Handler.{Recorded, handle_all, handle_all-Recorded}
use linux_device_drivers.UserProgram.Scan.Run
use linux_device_drivers.UserProgram.Scan.Run.{cached, scan_main-Ends}
use linux_device_drivers.Tests.Support.{start}

abbrev answered : Reply
answered = record { code = pos 0; ptr = addr 3; num = 2; bytes = [] }

abbrev answer : Call → Reply
answer nl_socket_alloc = record answered { ptr = addr 1 }
answer (genl_ctrl_alloc_cache _) = record answered { ptr = addr 2 }
answer _ = answered

abbrev netlink : Env Call
netlink l c = answer c

-- What the memory of the result may hold: no text, or one of a single letter.
abbrev unset : ScanResult
unset = record { ssid = replicate 32 1; signal_strength = pos 0 }

abbrev leftover : ScanResult
leftover = record { ssid = 65 ∷ replicate 31 0; signal_strength = negsuc 41 }

scan_main-Ends_example : Run.Ends leftover 0 (Scan.main leftover netlink (start tt))
unfolding held cached failures
scan_main-Ends_example =
    scan_main-Ends leftover netlink (start tt) (λ l. refl) (λ l m p. ground arith) refl refl

-- A message without the attribute, an address of six octets of which the last is 0 with -45.7
-- decibels, and a message without an address.
abbrev messages : List (Option Bss)
messages =
    none
    ∷ some (record { bssid = some (replicate 5 65 ++ (0 ∷ [])); signal_mbm = some (negsuc 4569) })
    ∷ some (record { bssid = none; signal_mbm = some (pos 5) })
    ∷ []

handle_all-Recorded_example :
    Recorded messages unset (start tt) (handle_all messages unset netlink (start tt))
handle_all-Recorded_example = handle_all-Recorded messages unset netlink (start tt) refl
