-- ===== src/Tests/Receivers.antt =====
-- The receiving program at concrete packets.
use linux_device_drivers.Base.{pos, refl, true, [], ◌∷◌, arith, replicate}
use linux_device_drivers.Machine.{Reply, Env, addr}
use linux_device_drivers.Machine.Resources.{nested}
use linux_device_drivers.Posix.{Call, posix_tracked, malloc, recvfrom, inet_ntoa}
use linux_device_drivers.UserProgram.RawSocket.Receiver
use linux_device_drivers.UserProgram.RawSocket
use linux_device_drivers.UserProgram.RawSocket.Request.{sent}
use linux_device_drivers.UserProgram.RawSocket.Run.{SentAll}
use linux_device_drivers.UserProgram.RawSocket.Reception
use linux_device_drivers.UserProgram.RawSocket.Reception.{raw_main-Shown}
use linux_device_drivers.Tests.Support.{start}

abbrev granted : Reply
granted = record { code = pos 4; ptr = addr 40; num = 7; bytes = [] }

-- Memory that holds ones, and packets of 20 bytes.
abbrev answer : Call → Reply
answer (malloc _) = record granted { bytes = replicate 2048 1 }
answer (recvfrom _ _) = record granted { code = pos 20; bytes = replicate 20 7 }
answer (inet_ntoa n) = record granted { bytes = n ∷ [] }
answer _ = granted

abbrev listening : Env Call
listening l c = answer c

-- A sender with 106 bytes of memory, whose `inet_addr` makes 7 of every text.
abbrev sending : Env Call
sending l c = record granted { bytes = replicate 106 9 }

raw_main-Shown_example :
    SentAll
      (Reception.Shows true
        (pos 4)
        (addr 40)
        (replicate 2048 1)
        listening
        (start tt)
        (λ n. n ∷ [])
        7
        7)
      (RawSocket.main (1 ∷ 2 ∷ 3 ∷ 4 ∷ 5 ∷ 6 ∷ []) sending (start tt))
unfolding nested sent
raw_main-Shown_example =
    raw_main-Shown true (pos 4) (addr 40) (replicate 2048 1) listening (start tt) (λ n. n ∷ []) 7 7
      (1 ∷ 2 ∷ 3 ∷ 4 ∷ 5 ∷ 6 ∷ []) sending (start tt) []
      (record { found = refl; size = refl; writes = λ l n. refl }) (omega arith) (omega arith) refl
      (λ l. refl) (record { source_told = λ l. refl; dest_told = λ l. refl }) refl refl
