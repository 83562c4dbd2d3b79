-- ===== src/Kernel/History.antt =====
-- What a log of kernel calls says about failures and about the bytes handed to the user, and which lines
-- were printed.
use linux_device_drivers.Base.{ℕ, ℤ, pos, Option, none, some, List, [], ◌∷◌, error_of, String}
use linux_device_drivers.Machine.{Log, Reply}
use linux_device_drivers.Kernel.{
  Call, alloc_chrdev_region, register_chrdev_region, cdev_add, class_create, device_create,
  add_driver, register_netdev, copy_to_user, ptr_err, printk,
}

-- What a call that can fail reports, 0 for success, by its documentation.
abbrev pub report : Call → Reply → Option ℤ
report (alloc_chrdev_region _ _ _) r = some (error_of r.code)
report (register_chrdev_region _ _ _) r = some (error_of r.code)
report (cdev_add _ _ _) r = some (error_of r.code)
report (class_create _) r = some (ptr_err r.ptr)
report (device_create _ _ _) r = some (ptr_err r.ptr)
report (add_driver _ _) r = some (error_of r.code)
report (register_netdev _) r = some (error_of r.code)
report _ r = none

abbrev pub or_else : Option ℤ → ℤ → ℤ
or_else none z = z
or_else (some r) z = r

-- What the newest call that can fail has reported.
unfoldable pub verdict : Log Call → ℤ
verdict [] = pos 0
verdict (e ∷ l) = let older = verdict l in or_else (report e.call e.reply) older

-- The newest call that can fail.
unfoldable pub last_fallible : Log Call → Option Call
last_fallible [] = none
last_fallible (e ∷ l) =
    let older = last_fallible l in
    elim (report e.call e.reply) [ none ↦ older | some _ ↦ some e.call ]

abbrev pub copied : Call → Option (ℕ × List ℕ) → Option (ℕ × List ℕ)
copied (copy_to_user a bs) older = some (a, bs)
copied _ older = older

-- The newest copy to the user: the address and the bytes.
unfoldable pub last_copy : Log Call → Option (ℕ × List ℕ)
last_copy [] = none
last_copy (e ∷ l) = copied e.call (last_copy l)

-- The lines printed, newest first, with their numbers.
abbrev pub add_line : Call → List (String × List ℤ) → List (String × List ℤ)
add_line (printk _ text numbers) older = (text, numbers) ∷ older
add_line _ older = older

unfoldable pub printed : Log Call → List (String × List ℤ)
printed [] = []
printed (e ∷ l) = add_line e.call (printed l)
