-- ===== src/UserProgram/Can/Run.antt =====
-- How the CAN program ends, and what it prints.
use linux_device_drivers.Base.{
  ℕ, suc, ℤ, pos, ◌≡◌, ◌⊎◌, Bool, true, false, List, some, arith, overlay, c_string, is_pos_eq, not,
}
use linux_device_drivers.Machine.{St, Env, Log, Reply}
use linux_device_drivers.Machine.Resources.{Resource, nested}
use linux_device_drivers.Posix.{Call, posix_tracked, print_string, write}
use linux_device_drivers.Posix.Ends.{Leaves, Never, Overruns}
use linux_device_drivers.Posix.History.{last_read, last_text, last_count, failures, reports_failure}
use linux_device_drivers.UserProgram.Can.{main, prepared, data_of, Stack, sizeof_can_frame}

-- The data of the frame that came back, which was read over the frame that was sent.
abbrev pub received_data : Stack → Log Call → List ℕ
received_data stack l = data_of (overlay (last_read l) (prepared stack))

-- To the program a write of less than a frame has failed too.
abbrev pub falls_short : Call → Reply → Bool
falls_short (write _ _) r = not (is_pos_eq r.code sizeof_can_frame)
falls_short c r = reports_failure c r

-- The newest text is that of the frame that came back, or if nothing came, that of the frame sent.
abbrev pub ShowsFrame : Stack → Log Call → Type 0
ShowsFrame stack l =
    (is_pos_eq (last_count l) 0 ≡ false) × (last_text l ≡ c_string (received_data stack l))
    ⊎ (is_pos_eq (last_count l) 0 ≡ true) × (last_text l ≡ c_string (data_of (prepared stack)))

-- `before` is the number of calls that had failed before the program.
abbrev pub PrintsFrame : Stack → ℕ → ℤ → Log Call → Type 0
PrintsFrame stack before z l =
    (z ≡ pos 0) × ShowsFrame stack l × (failures falls_short l ≡ before)
    ⊎ (z ≡ pos 1) × (failures falls_short l ≡ suc before)

-- The program returns 1 if it has no socket, or binding, writing the whole frame or reading failed, and
-- else 0; it has closed the socket if it had it. Before a return of 0 the newest text it has printed is
-- that in the data of the frame read, or, if reading returned 0, that in the data of the frame sent. It faults only if that
-- data, what was read over the frame that was sent, has no zero byte.
pub can_main-Leaves :
    (stack : Stack) (env : Env Call) (s : St Call (Unit {0})) (base : List Resource)
    → nested s.log ≡ some base
    → Leaves
        (PrintsFrame stack (failures falls_short s.log))
        Never
        (Overruns (received_data stack))
        base
        (main stack env s)
unfolding main nested last_read last_text print_string c_string last_count failures
can_main-Leaves stack env s base h = ground arith
