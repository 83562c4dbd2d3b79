-- ===== src/UserProgram/Hello.antt =====
-- hello_test.c: a greeting.
use linux_device_drivers.Base.{ℤ, pos, []}
use linux_device_drivers.Machine.{pure, ◌>>◌, invoke}
use linux_device_drivers.Posix.{P, printf}

unfoldable pub main : P ℤ
main = do invoke (printf "hello test\n" []); pure (pos 0)
