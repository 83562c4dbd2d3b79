-- ===== src/Posix/History.antt =====
-- What a log of a program's calls says about what it printed and read.
use linux_device_drivers.Base.{
  ℕ, suc, ℤ, pos, Bool, false, Option, none, some, List, [], ◌∷◌, is_neg, if◌then◌else◌,
}
use linux_device_drivers.Machine.{Log, Reply}
use linux_device_drivers.Posix.{
  Call, printf, printf_text, read, write, open_rdwr, socket, bind, hci_inquiry,
}

-- The newest text printed by `%s`.
abbrev pub text_of : Call → Option (List ℕ) → Option (List ℕ)
text_of (printf_text _ _ t) older = some t
text_of _ older = older

unfoldable pub last_text : Log Call → Option (List ℕ)
last_text [] = none
last_text (e ∷ l) = text_of e.call (last_text l)

-- The newest numbers printed.
abbrev pub numbers_of : Call → List ℤ → List ℤ
numbers_of (printf _ ns) older = ns
numbers_of _ older = older

unfoldable pub last_numbers : Log Call → List ℤ
last_numbers [] = []
last_numbers (e ∷ l) = numbers_of e.call (last_numbers l)

-- The bytes of the newest `read`.
abbrev pub bytes_of : Call → Reply → List ℕ → List ℕ
bytes_of (read _ _) r older = r.bytes
bytes_of _ r older = older

unfoldable pub last_read : Log Call → List ℕ
last_read [] = []
last_read (e ∷ l) = bytes_of e.call e.reply (last_read l)

-- The number that the newest `read` returned.
abbrev pub number_read : Call → Reply → ℤ → ℤ
number_read (read _ _) r older = r.code
number_read _ r older = older

unfoldable pub last_count : Log Call → ℤ
last_count [] = pos 0
last_count (e ∷ l) = number_read e.call e.reply (last_count l)

-- Whether a call reports a failure: by the documentation, with a number below zero. The calls here are
-- those that the programs test for it.
abbrev pub reports_failure : Call → Reply → Bool
reports_failure (open_rdwr _) r = is_neg r.code
reports_failure (socket _) r = is_neg r.code
reports_failure (bind _ _) r = is_neg r.code
reports_failure (write _ _) r = is_neg r.code
reports_failure (read _ _) r = is_neg r.code
reports_failure (hci_inquiry _ _ _) r = is_neg r.code
reports_failure _ r = false

-- How many calls of a log have failed, by a test of the call and its reply.
unfoldable pub failures : (Call → Reply → Bool) → Log Call → ℕ
failures test [] = 0
failures test (e ∷ l) =
    let older = failures test l in if test e.call e.reply then suc older else older
