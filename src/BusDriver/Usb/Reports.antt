-- ===== src/BusDriver/Usb/Reports.antt =====
-- What the USB driver reports when devices are plugged in and unplugged.
use linux_device_drivers.Base.{
  ℤ, pos, neg, ◌≡◌, Bool, Option, none, some, String, List, [], ◌∷◌, ◌++◌, ◌==◌, ◌&&◌,
  if◌then◌else◌, arith, Option-cases, inl, inr, ◌⊎◌, Bool-cases, true, false, refl,
}
use linux_device_drivers.Machine.{Ptr, St, Env, Returns, Returns-and_then, pure, ◌>>◌}
use linux_device_drivers.Machine.Resources.{Resource, nested}
use linux_device_drivers.Kernel.{Call, K, UsbId, kernel_tracked}
use linux_device_drivers.Kernel.History.{printed}
use linux_device_drivers.BusDriver.Usb.{Globals, my_usb_driver, my_usb_table, probe, disconnect}

-- A device, by its interface and its descriptor, comes or goes.
pub data Event : Type 0 where
  plugged unplugged : Ptr → UsbId → Event

abbrev pub own : UsbId
own = record { id_vendor = 0x1234; id_product = 0x5678 }

-- The driver's own device, by the file's comment.
abbrev pub is_own : UsbId → Bool
is_own d = (d.id_vendor == 0x1234) && (d.id_product == 0x5678)

abbrev pub own_lines : String → UsbId → List (String × List ℤ)
own_lines text d = if is_own d then (text, pos 0x1234 ∷ pos 0x5678 ∷ []) ∷ [] else []

abbrev pub lines : Event → List (String × List ℤ)
lines (plugged _ d) = own_lines "USB device (%04X:%04X) plugged\n" d
lines (unplugged _ d) = own_lines "USB device (%04X:%04X) unplugged\n" d

-- What is to be printed over a sequence of events, newest first, on top of what was printed before.
unfoldable pub report : List (String × List ℤ) → List Event → List (String × List ℤ)
report older [] = older
report older (e ∷ es) = report (lines e ++ older) es

-- A device stands in a table.
abbrev pub IsListed : UsbId → List UsbId → Type 0
IsListed d [] = ⊥
IsListed d (entry ∷ table) = (d ≡ entry) ⊎ IsListed d table

-- The kernel's search of a driver's table for a device.
module _ (usb_match_id : List UsbId → UsbId → Option UsbId) where
  pub record IsSearch : Type 0 where
    pub listed :
        (table : List UsbId) (d id : UsbId) → usb_match_id table d ≡ some id → IsListed id table
    pub agrees : (table : List UsbId) (d id : UsbId) → usb_match_id table d ≡ some id → id ≡ d
    pub complete :
        (table : List UsbId) (d : UsbId) → IsListed d table → usb_match_id table d ≡ some d

  -- What the kernel does at an event: it asks the driver about the devices of its table only.
  unfoldable pub serve : Event → K Globals ℤ
  serve (plugged interface d) = elim (usb_match_id my_usb_table d) [
    | none ↦ pure (neg 19)
    | some id ↦ my_usb_driver (probe interface id)
  ]
  serve (unplugged interface d) = elim (usb_match_id my_usb_table d) [
    | none ↦ pure (neg 19)
    | some id ↦ my_usb_driver (disconnect interface d)
  ]

  unfoldable pub serve_all : List Event → K Globals (Unit {0})
  unfolding serve
  serve_all [] = pure tt
  serve_all (e ∷ es) = do serve e; serve_all es

is_own-own : (d : UsbId) → is_own d ≡ true → d ≡ own
is_own-own d h = ground arith

listed-own : (id : UsbId) → IsListed id my_usb_table → id ≡ own
listed-own id (inl e) = e
listed-own id (inr none_left) = elim none_left [ ]

module _ (usb_match_id : List UsbId → UsbId → Option UsbId) (search : IsSearch usb_match_id) where
  -- The search finds the driver's own device, and no other.
  search_lem :
      (d : UsbId)
      → (usb_match_id my_usb_table d ≡ none) × (is_own d ≡ false)
        ⊎ (usb_match_id my_usb_table d ≡ some own) × (d ≡ own)
  search_lem d = elim (Option-cases (usb_match_id my_usb_table d)) [
    | inl missing ↦ elim (Bool-cases (is_own d)) [
      | inl yes' ↦
          let found = search.complete my_usb_table d (inl (is_own-own d yes')) in
          ground (arith, found)
      | inr no' ↦ inl (missing, no')
    ]
    | inr (id, found) ↦
        let e = listed-own id (search.listed my_usb_table d id found) in
        let e' = search.agrees my_usb_table d id found in inr (cc, cc)
  ]

  -- What an event prints and what is held after it.
  serve_lem :
      (e : Event) (env : Env Call) (s : St Call Globals) (base : List Resource)
      → nested s.log ≡ some base
      → Returns
          (λ _ t. (printed t.log ≡ lines e ++ printed s.log) × (nested t.log ≡ some base))
          (serve usb_match_id e env s)
  unfolding serve my_usb_driver printed nested
  serve_lem (plugged i d) env s base h = elim (search_lem d) [
    | inl (missing, other) ↦ ground arith
    | inr (found, same) ↦ ground arith
  ]
  serve_lem (unplugged i d) env s base h = elim (search_lem d) [
    | inl (missing, other) ↦ ground arith
    | inr (found, same) ↦ ground arith
  ]

  -- On a kernel that searches a driver's table by vendor and product: over any sequence of devices
  -- plugged in and unplugged, the driver prints one line for each time that the device 1234:5678 comes
  -- or goes, in that order and with these numbers, none for any other device, and what is held stays
  -- as it was.
  pub serve_all-report :
      (es : List Event) (env : Env Call) (s : St Call Globals) (base : List Resource)
      → nested s.log ≡ some base
      → Returns
          (λ _ t. (printed t.log ≡ report (printed s.log) es) × (nested t.log ≡ some base))
          (serve_all usb_match_id es env s)
  unfolding serve_all report
  serve_all-report [] env s base h = (refl, h)
  serve_all-report (e ∷ es) env s base h =
      Returns-and_then _ _ (serve usb_match_id e env s) _
        (λ r t p. rw p.0 at (serve_all-report es env t base p.1)) (serve_lem e env s base h)
