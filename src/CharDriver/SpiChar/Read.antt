-- ===== src/CharDriver/SpiChar/Read.antt =====
-- What `spi_char_read` returns, hands to the user and frees.
use linux_device_drivers.Base.{ℤ, ℕ, pos, ◌≤◌, ◌≡◌, ◌⊎◌, some, List, arith, length, take}
use linux_device_drivers.Machine.{St, Env, Log, Returns}
use linux_device_drivers.Machine.Resources.{Resource, nested}
use linux_device_drivers.Kernel.{Call, kernel_tracked, spi_transfer}
use linux_device_drivers.Kernel.History.{last_copy}
use linux_device_drivers.CharDriver.SpiChar.{
  Globals, efault, data_size, spi_bus_id, spi_device_id, at_most, spi_char_read,
}
use linux_device_drivers.Kernel.Replies.{NullOrAddress}

-- A transfer that succeeds has written all the bytes that it was asked for.
abbrev pub Fills : Env Call → Type 0
Fills env =
    (l : Log Call)
    → data_size ≤ length (env l (spi_transfer spi_bus_id spi_device_id data_size)).bytes

abbrev pub transfer : Call
transfer = spi_transfer spi_bus_id spi_device_id data_size

-- What a read leaves behind, and what it returns.
abbrev pub HandsOver :
    ℕ → ℕ → Env Call → St Call Globals → List Resource → ℤ → St Call Globals → Type 0
HandsOver user_buf requested env s base r t =
    let count = at_most requested data_size in
    (nested t.log ≡ some base)
    × (t.globals ≡ s.globals)
    × ((r ≡ efault)
        ⊎ (r ≡ pos count)
          × (last_copy t.log ≡ some (user_buf, take count (env s.log transfer).bytes)))

pub spi_char_read-count :
    (user_buf requested : ℕ) (env : Env Call) (s : St Call Globals) (base : List Resource)
    → NullOrAddress transfer env
    → Fills env
    → nested s.log ≡ some base
    → Returns (HandsOver user_buf requested env s base) (spi_char_read user_buf requested env s)
unfolding spi_char_read nested last_copy
spi_char_read-count user_buf requested env s base valid fills h =
    ground (arith, valid s.log, fills s.log)
