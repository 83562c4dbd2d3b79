-- ===== src/UserProgram/I2c.antt =====
-- I2c_userSpace_testV1_0.c: writes two bytes to an I2C device and reads two back.
pub mod Run
use linux_device_drivers.Base.{
  ℕ, ℤ, pos, List, [], ◌∷◌, is_neg, is_pos_eq, if◌then◌else◌, overlay, get_or, map, not,
}
use linux_device_drivers.Machine.{pure, ◌>>=◌, ◌>>◌, invoke, exit}
use linux_device_drivers.Posix.{P, perror, printf, open_rdwr, close, write, read, ioctl_i2c_slave}

unfoldable pub main : P ℤ
main = do
  file ← invoke (open_rdwr "/dev/i2c-1")
  if is_neg file.code
      then (do invoke (perror "Failed to open the I2C device"); exit (pos 1))
      else do
        set ← invoke (ioctl_i2c_slave file.code 0x48)
        if is_neg set.code
            then (do
              invoke (perror "Failed to set I2C slave address")
              invoke (close file.code)
              exit (pos 1))
            else do
              let buffer : List ℕ = 0x00 ∷ 0x00 ∷ []
              written ← invoke (write file.code buffer)
              if not (is_pos_eq written.code 2)
                  then (do
                    invoke (perror "Failed to write to the I2C device")
                    invoke (close file.code)
                    exit (pos 1))
                  else do
                    got ← invoke (read file.code 2)
                    if not (is_pos_eq got.code 2)
                        then (do
                          invoke (perror "Failed to read from the I2C device")
                          invoke (close file.code)
                          exit (pos 1))
                        else do
                          let received = overlay got.bytes buffer
                          invoke (printf "Received data: 0x%02x 0x%02x\n" (map pos received))
                          invoke (close file.code)
                          pure (pos 0)
