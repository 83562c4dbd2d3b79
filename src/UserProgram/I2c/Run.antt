-- ===== src/UserProgram/I2c/Run.antt =====
-- How the I2C program ends.
use linux_device_drivers.Base.{ℤ, pos, ◌≡◌, some, List, [], ◌∷◌, arith, map, overlay}
use linux_device_drivers.Machine.{St, Env, Log}
use linux_device_drivers.Machine.Resources.{Resource, nested}
use linux_device_drivers.Posix.{Call, posix_tracked}
use linux_device_drivers.Posix.Ends.{Leaves, Never}
use linux_device_drivers.Posix.History.{last_read, last_numbers}
use linux_device_drivers.UserProgram.I2c.{main}

abbrev pub PrintsBytes : ℤ → Log Call → Type 0
PrintsBytes z l = (z ≡ pos 0) × (last_numbers l ≡ map pos (overlay (last_read l) (0 ∷ 0 ∷ [])))

abbrev pub Fails : ℤ → Log Call → Type 0
Fails z l = z ≡ pos 1

-- The program returns 0 after printing the numbers of the bytes that were read over the two bytes of
-- its buffer, or exits with 1; on every path it has closed the device if it had it.
pub i2c_main-Leaves :
    (env : Env Call) (s : St Call (Unit {0})) (base : List Resource)
    → nested s.log ≡ some base
    → Leaves PrintsBytes Fails Never base (main env s)
unfolding main nested last_read last_numbers
i2c_main-Leaves env s base h = ground arith
