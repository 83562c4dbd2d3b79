-- ===== src/UserProgram/Can.antt =====
-- MyCanUserSpace.c: sends "Hello!" in a CAN frame and prints the frame that comes back.
pub mod Run
use linux_device_drivers.Base.{
  ℕ, ℤ, pos, List, [], ◌∷◌, ◌++◌, is_neg, is_pos_eq, not, if◌then◌else◌, overlay, drop, literal,
}
use linux_device_drivers.Machine.{pure, ◌>>=◌, ◌>>◌, invoke}
use linux_device_drivers.Posix.{
  P, perror, printf, socket, close, ioctl, bind, write, read, print_string,
}

-- `sizeof(struct can_frame)`, and where `data` stands in it.
abbrev pub sizeof_can_frame : ℕ
sizeof_can_frame = 16

abbrev pub data_of : List ℕ → List ℕ
data_of frame = drop 8 frame

-- What the memory of `frame` holds at the start, where the program does not write: three bytes
-- behind `can_dlc`, and the last byte of `data`.
pub record Stack : Type 0 where
  pub pad : ℕ
  pub res0 : ℕ
  pub len8_dlc : ℕ
  pub last : ℕ

-- The frame to be sent, `can_id` with its lowest byte first, as on a little-endian machine.
abbrev pub prepared : Stack → List ℕ
prepared k =
    0x23 ∷ 0x01 ∷ 0 ∷ 0 ∷ 8 ∷ k.pad ∷ k.res0 ∷ k.len8_dlc ∷ (literal "Hello!" ++ (k.last ∷ []))

-- The part after the frame was sent.
unfoldable pub receive : ℤ → List ℕ → P ℤ
receive s frame = do
  nbytes ← invoke (read s sizeof_can_frame)
  if is_neg nbytes.code
      then (do invoke (perror "Read failed"); invoke (close s); pure (pos 1))
      else if is_pos_eq nbytes.code 0
      then (do invoke (printf "No data received\n" []); invoke (close s); pure (pos 0))
      else do
        print_string "Message received: %s\n" [] (data_of (overlay nbytes.bytes frame))
        invoke (close s)
        pure (pos 0)

unfoldable pub main : Stack → P ℤ
unfolding receive
main stack = do
  s ← invoke (socket "PF_CAN, SOCK_RAW, CAN_RAW")
  if is_neg s.code then (do invoke (perror "Socket creation failed"); pure (pos 1)) else do
    ifr ← invoke (ioctl s.code "SIOCGIFINDEX can0")
    bound ← invoke (bind s.code ifr.num)
    if is_neg bound.code
        then (do invoke (perror "Bind failed"); invoke (close s.code); pure (pos 1))
        else do
          let frame = prepared stack
          nbytes ← invoke (write s.code frame)
          if not (is_pos_eq nbytes.code sizeof_can_frame)
              then (do invoke (perror "Write failed"); invoke (close s.code); pure (pos 1))
              else do print_string "Message sent: %s\n" [] (data_of frame); receive s.code frame
