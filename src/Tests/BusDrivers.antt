-- ===== src/Tests/BusDrivers.antt =====
-- The bus drivers at concrete answers.
use linux_device_drivers.Base.{
  ◌≡◌, refl, Option, some, none, List, [], ◌∷◌, ◌==◌, ◌&&◌, if◌then◌else◌, inl, inr, arith,
}
use linux_device_drivers.Machine.{St, null, addr, Returns}
use linux_device_drivers.Machine.Resources.{nested}
use linux_device_drivers.Kernel.{Call, kernel_tracked, UsbId}
use linux_device_drivers.Kernel.History.{printed}
use linux_device_drivers.BusDriver.Spi
use linux_device_drivers.BusDriver.Spi.Transfers
use linux_device_drivers.BusDriver.Spi.Transfers.{run-bound}
use linux_device_drivers.BusDriver.Usb
use linux_device_drivers.BusDriver.Usb.Reports
use linux_device_drivers.BusDriver.Usb.Reports.{IsListed, serve_all-report}
use linux_device_drivers.Tests.Support.{granting, start}

abbrev spi_start : St Call Spi.Globals
spi_start = start (record { spi_dev = null })

abbrev usb_start : St Call Usb.Globals
usb_start = start (record {})

-- A probe, a write and a removal.
run-bound_example :
    let ops = Spi.probe (addr 3) ∷ Spi.write (addr 3) (addr 60) 2 ∷ Spi.remove (addr 3) ∷ [] in
    Returns
      (λ _ t.
        (t.globals.spi_dev ≡ Transfers.bound null ops)
        × (Transfers.sent t.log ≡ Transfers.requests (Transfers.sent spi_start.log) ops))
      (Transfers.run ops granting spi_start)
run-bound_example =
    run-bound (Spi.probe (addr 3) ∷ Spi.write (addr 3) (addr 60) 2 ∷ Spi.remove (addr 3) ∷ [])
      granting spi_start

-- A kernel's search, by vendor and product.
abbrev usb_match_id : List UsbId → UsbId → Option UsbId
usb_match_id [] d = none
usb_match_id (entry ∷ table) d =
    let rest = usb_match_id table d in
    if (entry.id_vendor == d.id_vendor) && (entry.id_product == d.id_product)
    then some entry
    else rest

found-IsListed :
    (table : List UsbId) (d id : UsbId) → usb_match_id table d ≡ some id → IsListed id table
found-IsListed [] d id h = ground arith
found-IsListed (entry ∷ table) d id h = ground (arith, found-IsListed table d id)

found-agrees : (table : List UsbId) (d id : UsbId) → usb_match_id table d ≡ some id → id ≡ d
found-agrees [] d id h = ground arith
found-agrees (entry ∷ table) d id h = ground (arith, found-agrees table d id)

IsListed-found : (table : List UsbId) (d : UsbId) → IsListed d table → usb_match_id table d ≡ some d
IsListed-found [] d h = absurd h
IsListed-found (entry ∷ table) d (inl e) = ground arith
IsListed-found (entry ∷ table) d (inr later) = ground (arith, IsListed-found table d later)

-- Another device comes, then the driver's own comes and goes.
abbrev events : List Reports.Event
events =
    Reports.plugged (addr 5) (record { id_vendor = 7; id_product = 7 })
    ∷ Reports.plugged (addr 6) (record { id_vendor = 0x1234; id_product = 0x5678 })
    ∷ Reports.unplugged (addr 6) (record { id_vendor = 0x1234; id_product = 0x5678 })
    ∷ []

serve_all-report_example :
    Returns
      (λ _ t.
        (printed t.log ≡ Reports.report (printed usb_start.log) events) × (nested t.log ≡ some []))
      (Reports.serve_all usb_match_id events granting usb_start)
unfolding nested
serve_all-report_example =
    serve_all-report usb_match_id
      (record { listed = found-IsListed; agrees = found-agrees; complete = IsListed-found }) events
      granting usb_start [] refl
