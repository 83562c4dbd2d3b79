-- ===== src/UserProgram/Uart.antt =====
-- Uart_userSpace_v1_1.c: reads from a serial line, prints what came, and sends a greeting.
pub mod Run
use linux_device_drivers.Base.{
  ℕ, ℤ, pos, List, [], ◌∷◌, is_minus_one, if◌then◌else◌, overlay, literal,
}
use linux_device_drivers.Machine.{pure, ◌>>=◌, ◌>>◌, invoke}
use linux_device_drivers.Posix.{
  P, perror, open_rdwr, close, write, read, tcgetattr, cfsetospeed_9600, tcsetattr_now,
  print_string,
}

-- `stack` is what the memory of `buffer`, 256 bytes, holds at the start.
unfoldable pub main : List ℕ → P ℤ
main stack = do
  uart_fd ← invoke (open_rdwr "/dev/ttyS0")
  if is_minus_one uart_fd.code
      then (do invoke (perror "Error opening UART device"); pure (pos 1))
      else do
        invoke (tcgetattr uart_fd.code)
        invoke cfsetospeed_9600
        invoke (tcsetattr_now uart_fd.code)
        bytes_read ← invoke (read uart_fd.code 256)
        if is_minus_one bytes_read.code
            then (do
              invoke (perror "Error reading from UART")
              invoke (close uart_fd.code)
              pure (pos 1))
            else do
              let buffer = overlay bytes_read.bytes stack
              print_string "Received %d bytes: %s\n" (bytes_read.code ∷ []) buffer
              bytes_written ← invoke (write uart_fd.code (literal "Hello UART!"))
              if is_minus_one bytes_written.code
                  then (do
                    invoke (perror "Error writing to UART")
                    invoke (close uart_fd.code)
                    pure (pos 1))
                  else do invoke (close uart_fd.code); pure (pos 0)
