-- ===== src/UserProgram/Spi/Run.antt =====
-- How the SPI program ends, and what it prints.
use linux_device_drivers.Base.{ℕ, ℤ, pos, ◌≡◌, ◌⊎◌, some, List, [], ◌∷◌, ◌++◌, arith, overlay}
use linux_device_drivers.Machine.{St, Env, Log, Reply, Outcome, ok, exited, fault, Returns, after}
use linux_device_drivers.Machine.Resources.{Resource, nested}
use linux_device_drivers.Posix.{
  Call, posix_tracked, printf, open_rdwr, ioctl, ioctl_transfer, descriptor_of,
}
use linux_device_drivers.UserProgram.Spi.{main, print_bytes, tx_buffer}

-- The numbers printed, newest first, the bytes of the newest transfer, and the device opened.
abbrev pub add_numbers : Call → List ℤ → List ℤ
add_numbers (printf _ ns) older = ns ++ older
add_numbers _ older = older

unfoldable pub printed : Log Call → List ℤ
printed [] = []
printed (e ∷ l) = add_numbers e.call (printed l)

abbrev pub transferred : Call → Reply → List ℕ → List ℕ
transferred (ioctl_transfer _ _ _) r older = r.bytes
transferred _ r older = older

unfoldable pub last_transfer : Log Call → List ℕ
last_transfer [] = []
last_transfer (e ∷ l) = transferred e.call e.reply (last_transfer l)

abbrev pub device : Call → Reply → ℤ → ℤ
device (open_rdwr _) r older = r.code
device _ r older = older

unfoldable pub opened_device : Log Call → ℤ
opened_device [] = pos 0
opened_device (e ∷ l) = device e.call e.reply (opened_device l)

-- Bytes printed one by one on top of what was printed before.
unfoldable pub printed_after : List ℕ → List ℤ → List ℤ
printed_after [] older = older
printed_after (b ∷ bs) older = printed_after bs (pos b ∷ older)

print_bytes-printed :
    (bs : List ℕ) (env : Env Call) (s : St Call (Unit {0})) (held : List Resource)
    → nested s.log ≡ some held
    → Returns
        (λ _ t.
          (nested t.log ≡ some held)
          × (printed t.log ≡ printed_after bs (printed s.log))
          × (last_transfer t.log ≡ last_transfer s.log))
        (print_bytes bs env s)
unfolding print_bytes nested printed printed_after last_transfer
print_bytes-printed [] env s held h = ground arith
print_bytes-printed (b ∷ bs) env s held h =
    print_bytes-printed bs env (after env (printf "Received: 0x%02X\n" (pos b ∷ [])) s) held
      (ground arith)

-- How the program may end: it leaves the process with the device open, for the system to close.
abbrev pub Ends : List ℕ → List ℤ → List Resource → Outcome Call (Unit {0}) ℤ → Type 0
Ends stack before base (ok z t) =
    (z ≡ pos 0)
    × (nested t.log ≡ some base)
    × (printed t.log ≡ printed_after (overlay (last_transfer t.log) stack) before)
Ends stack before base (exited z t) =
    (z ≡ pos 1)
    × (printed t.log ≡ before)
    × ((nested t.log ≡ some base)
        ⊎ (nested t.log ≡ some (descriptor_of (opened_device t.log) ++ base)))
Ends stack before base (fault f t) = ⊥

-- The program returns 0 after closing the device and printing, in order, each byte that came back;
-- or it exits with 1, has printed no byte, and holds at most the device.
pub spi_main-Ends :
    (stack : List ℕ) (env : Env Call) (s : St Call (Unit {0})) (base : List Resource)
    → nested s.log ≡ some base
    → Ends stack (printed s.log) base (main stack env s)
unfolding main nested printed last_transfer opened_device
spi_main-Ends stack env s base h = ground (
  arith,
  print_bytes-printed (overlay (env ready.log (ioctl_transfer fd tx_buffer 3)).bytes stack) env
      (after env (ioctl_transfer fd tx_buffer 3) ready) (descriptor_of fd ++ base),
)
  where
    fd : ℤ
    fd = (env s.log (open_rdwr "/dev/spidev0.0")).code

    opened : St Call (Unit {0})
    opened = after env (open_rdwr "/dev/spidev0.0") s

    ready : St Call (Unit {0})
    ready =
        after env (ioctl fd "SPI_IOC_WR_MAX_SPEED_HZ, 1000000")
          (after env (ioctl fd "SPI_IOC_WR_MODE, SPI_MODE_0") opened)
