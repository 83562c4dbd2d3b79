-- ===== src/Machine/Buffer.antt =====
-- Memory that a pointer of known size points to. An access outside it faults.
use linux_device_drivers.Base.{
  ℕ, ◌+◌, List, leb, ltb, if◌then◌else◌, length, get_or, set, take, drop, overlay, overlay_at,
}
use linux_device_drivers.Machine.{M, pure, crash, out_of_bounds}

module _ {C G : Type 0} where
  abbrev pub read_byte : List ℕ → ℕ → M C G ℕ
  read_byte buffer i =
      if ltb i (length buffer) then pure (get_or buffer i 0) else crash out_of_bounds

  -- The `n` bytes from `i` on.
  abbrev pub read_bytes : List ℕ → ℕ → ℕ → M C G (List ℕ)
  read_bytes buffer i n =
      if leb (i + n) (length buffer) then pure (take n (drop i buffer)) else crash out_of_bounds

  abbrev pub write_byte : List ℕ → ℕ → ℕ → M C G (List ℕ)
  write_byte buffer i v =
      if ltb i (length buffer) then pure (set buffer i v) else crash out_of_bounds

  -- `memcpy` to the start.
  abbrev pub write_bytes : List ℕ → List ℕ → M C G (List ℕ)
  write_bytes buffer bytes =
      if leb (length bytes) (length buffer)
      then pure (overlay bytes buffer)
      else crash out_of_bounds

  -- `memcpy` to the index `i`.
  abbrev pub write_bytes_at : List ℕ → ℕ → List ℕ → M C G (List ℕ)
  write_bytes_at buffer i bytes =
      if leb (i + length bytes) (length buffer)
      then pure (overlay_at i bytes buffer)
      else crash out_of_bounds
