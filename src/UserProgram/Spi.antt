-- ===== src/UserProgram/Spi.antt =====
-- Spi_userSpace_test_v1_0.c: exchanges three bytes with an SPI device and prints what came back. The
-- static variable `spi_fd` is passed on from `spi_init`.
pub mod Run
use linux_device_drivers.Base.{ℕ, ℤ, pos, List, [], ◌∷◌, is_neg, if◌then◌else◌, overlay, length}
use linux_device_drivers.Machine.{pure, ◌>>=◌, ◌>>◌, invoke, exit}
use linux_device_drivers.Posix.{P, perror, printf, open_rdwr, close, ioctl, ioctl_transfer}

unfoldable pub spi_init : P ℤ
spi_init = do
  spi_fd ← invoke (open_rdwr "/dev/spidev0.0")
  if is_neg spi_fd.code then (do invoke (perror "Failed to open SPI device"); exit (pos 1)) else do
    mode ← invoke (ioctl spi_fd.code "SPI_IOC_WR_MODE, SPI_MODE_0")
    if is_neg mode.code then (do invoke (perror "Failed to set SPI mode"); exit (pos 1)) else do
      speed ← invoke (ioctl spi_fd.code "SPI_IOC_WR_MAX_SPEED_HZ, 1000000")
      if is_neg speed.code
          then (do invoke (perror "Failed to set SPI speed"); exit (pos 1))
          else pure spi_fd.code

-- What `rx_buf` holds afterwards, given what it held before.
unfoldable pub spi_transfer : ℤ → List ℕ → List ℕ → ℕ → P (List ℕ)
spi_transfer spi_fd tx_buf rx_buf len = do
  done ← invoke (ioctl_transfer spi_fd tx_buf len)
  if is_neg done.code
      then (do invoke (perror "SPI transfer error"); exit (pos 1))
      else pure (overlay done.bytes rx_buf)

-- The loop over `rx_buffer`.
unfoldable pub print_bytes : List ℕ → P (Unit {0})
print_bytes [] = pure tt
print_bytes (b ∷ bs) = do invoke (printf "Received: 0x%02X\n" (pos b ∷ [])); print_bytes bs

abbrev pub tx_buffer : List ℕ
tx_buffer = 0x01 ∷ 0x02 ∷ 0x03 ∷ []

-- `stack` is what the memory of `rx_buffer`, three bytes, holds at the start.
unfoldable pub main : List ℕ → P ℤ
unfolding spi_init spi_transfer
main stack = do
  spi_fd ← spi_init
  rx_buffer ← spi_transfer spi_fd tx_buffer stack (length tx_buffer)
  print_bytes rx_buffer
  invoke (close spi_fd)
  pure (pos 0)
