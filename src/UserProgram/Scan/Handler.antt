-- ===== src/UserProgram/Scan/Handler.antt =====
-- What `handle_wifi_scan` records.
use linux_device_drivers.Base.{
  ℕ, ℤ, ◌≡◌, ◌≢◌, ◌⊎◌, Option, none, some, inl, inr, true, Bool-cases, Option-cases, refl, List, [],
  ◌∷◌, ◌++◌, arith, length, take, c_string, is_nonzero, if◌then◌else◌, length-overlay,
  c_string-NoZero, NoZero-take, c_string-overlay, length-take_le,
}
use linux_device_drivers.Machine.{
  St, Env, Outcome, ok, exited, fault, out_of_bounds, Returns, and_then, pure, ◌>>=◌,
}
use linux_device_drivers.Posix.{Call, P}
use linux_device_drivers.UserProgram.Scan.{ScanResult, Bss, divide, record_signal, handle_wifi_scan}

-- The text and the signal that a message is to record: an address that is a text, and a signal that
-- is there and is not 0.
abbrev pub text_with : ℤ → Option (List ℕ) → Option (List ℕ × ℤ)
text_with mbm none = none
text_with mbm (some text) = some (text, mbm)

abbrev pub from_parts : Option (List ℕ) → Option ℤ → Option (List ℕ × ℤ)
from_parts (some address) (some mbm) =
    if is_nonzero mbm then text_with mbm (c_string address) else none
from_parts (some _) none = none
from_parts none _ = none

abbrev pub recordable : Option Bss → Option (List ℕ × ℤ)
recordable none = none
recordable (some bss) = from_parts bss.bssid bss.signal_mbm

-- There is a zero byte among the octets of the address of a message with a signal.
abbrev pub PartsEnd : Option (List ℕ) → Option ℤ → Type 0
PartsEnd (some address) (some mbm) = if is_nonzero mbm then (c_string address ≢ none) else Unit {0}
PartsEnd (some _) none = Unit {0}
PartsEnd none _ = Unit {0}

abbrev pub Terminated : Option Bss → Type 0
Terminated none = Unit {0}
Terminated (some bss) = PartsEnd bss.bssid bss.signal_mbm

abbrev pub AllTerminated : List (Option Bss) → Type 0
AllTerminated [] = Unit {0}
AllTerminated (m ∷ ms) = Terminated m × AllTerminated ms

-- The messages that `nl_recvmsgs` hands to the handler, one after the other.
unfoldable pub handle_all : List (Option Bss) → ScanResult → P ScanResult
handle_all [] result = pure result
handle_all (m ∷ ms) result = do new ← handle_wifi_scan m result; handle_all ms new

-- What is to be recorded of a sequence of messages: the last that can be.
abbrev pub or_else : Option (List ℕ × ℤ) → Option (List ℕ × ℤ) → Option (List ℕ × ℤ)
or_else none older = older
or_else (some r) older = some r

unfoldable pub last_recordable : List (Option Bss) → Option (List ℕ × ℤ)
last_recordable [] = none
last_recordable (m ∷ ms) = or_else (last_recordable ms) (recordable m)

-- The name is the text cut to 31 bytes, in its 32 bytes, and the strength the hundredth part of the
-- signal; or the result is as it was.
abbrev pub Records : Option (List ℕ × ℤ) → ScanResult → ScanResult → Type 0
Records none old new = new ≡ old
Records (some (text, mbm)) old new =
    (c_string new.ssid ≡ some (take 31 text)) × (new.signal_strength ≡ divide mbm 100)

abbrev pub Handled :
    Option (List ℕ × ℤ) → ScanResult → St Call (Unit {0}) → ScanResult → St Call (Unit {0}) → Type 0
Handled r old s new t = Records r old new × (length new.ssid ≡ 32) × (t.log ≡ s.log)

recorded :
    (address text : List ℕ) (mbm : ℤ) (old : ScanResult) (env : Env Call) (s : St Call (Unit {0}))
    → length old.ssid ≡ 32
    → c_string address ≡ some text
    → is_nonzero mbm ≡ true
    → Returns (Handled (some (text, mbm)) old s) (record_signal address mbm old env s)
unfolding record_signal
recorded address text mbm old env s size isText nonzero =
    let short = NoZero-take 31 text (c_string-NoZero address text isText) in
    ground (
      arith,
      c_string-overlay (take 31 text) old.ssid short,
      length-overlay (take 31 text ++ (0 ∷ [])) old.ssid,
      length-take_le 31 text,
    )

with_parts :
    (address : Option (List ℕ)) (signal : Option ℤ) (old : ScanResult) (env : Env Call)
    (s : St Call (Unit {0}))
    → length old.ssid ≡ 32
    → PartsEnd address signal
    → Returns
        (Handled (from_parts address signal) old s)
        (handle_wifi_scan (some (record { bssid = address; signal_mbm = signal })) old env s)
unfolding handle_wifi_scan
with_parts none signal old env s size e = ground arith
with_parts (some address) none old env s size e = ground arith
with_parts (some address) (some mbm) old env s size e = elim (Bool-cases (is_nonzero mbm)) [
  | inl yes' ↦ elim (Option-cases (c_string address)) [
    | inl bad ↦ ground arith
    | inr (text, isText) ↦ ground (arith, recorded address text mbm old env s)
  ]
  | inr zero' ↦ ground arith
]

-- One message.
handle_lem :
    (m : Option Bss) (old : ScanResult) (env : Env Call) (s : St Call (Unit {0}))
    → length old.ssid ≡ 32
    → Terminated m
    → Returns (Handled (recordable m) old s) (handle_wifi_scan m old env s)
unfolding handle_wifi_scan
handle_lem none old env s size e = ground arith
handle_lem (some bss) old env s size e = with_parts bss.bssid bss.signal_mbm old env s size e

-- What two steps of recording come to.
Handled-trans :
    (p q : Option (List ℕ × ℤ)) (a b c : ScanResult) (s t u : St Call (Unit {0}))
    → Handled q a s b t
    → Handled p b t c u
    → Handled (or_else p q) a s c u
Handled-trans none q a b c s t u h k = ground arith
Handled-trans (some r) q a b c s t u h k = ground arith

-- How a sequence of messages may end: with what it records, or beyond an address.
abbrev pub Recorded :
    List (Option Bss)
    → ScanResult
    → St Call (Unit {0})
    → Outcome Call (Unit {0}) ScanResult
    → Type 0
Recorded ms old s (ok new t) = AllTerminated ms × Handled (last_recordable ms) old s new t
Recorded ms old s (exited z t) = ⊥
Recorded ms old s (fault f t) = (f ≡ out_of_bounds) × (AllTerminated ms → ⊥)

-- One message whose address has no zero byte.
unterminated :
    (m : Option Bss) (old : ScanResult) (env : Env Call) (s : St Call (Unit {0}))
    → Terminated m ⊎ (handle_wifi_scan m old env s ≡ fault out_of_bounds s) × (Terminated m → ⊥)
unfolding handle_wifi_scan record_signal
unterminated none old env s = inl tt
unterminated (some bss) old env s = from_both bss.bssid bss.signal_mbm
  where
    from_both :
        (address : Option (List ℕ)) (signal : Option ℤ)
        → PartsEnd address signal
          ⊎ (handle_wifi_scan (some (record { bssid = address; signal_mbm = signal })) old env s
              ≡ fault out_of_bounds s)
            × (PartsEnd address signal → ⊥)
    from_both none signal = inl tt
    from_both (some address) none = inl tt
    from_both (some address) (some mbm) = ground arith

-- How one message may end.
abbrev pub RecordedOne :
    Option Bss → ScanResult → St Call (Unit {0}) → Outcome Call (Unit {0}) ScanResult → Type 0
RecordedOne m old s (ok new t) = Terminated m × Handled (recordable m) old s new t
RecordedOne m old s (exited z t) = ⊥
RecordedOne m old s (fault f t) = (f ≡ out_of_bounds) × (Terminated m → ⊥)

Returns-RecordedOne :
    (m : Option Bss) (old : ScanResult) (s : St Call (Unit {0}))
    (o : Outcome Call (Unit {0}) ScanResult)
    → Terminated m
    → Returns (Handled (recordable m) old s) o
    → RecordedOne m old s o
Returns-RecordedOne m old s (ok new t) e h = (e, h)
Returns-RecordedOne m old s (exited z t) e h = h
Returns-RecordedOne m old s (fault f t) e h = absurd h

handle-RecordedOne :
    (m : Option Bss) (old : ScanResult) (env : Env Call) (s : St Call (Unit {0}))
    → length old.ssid ≡ 32
    → RecordedOne m old s (handle_wifi_scan m old env s)
handle-RecordedOne m old env s size = elim (unterminated m old env s) [
  | inl e ↦
      Returns-RecordedOne m old s (handle_wifi_scan m old env s) e (handle_lem m old env s size e)
  | inr (stops, bad) ↦ rw stops (refl, bad)
]

-- One message, and then others.
Recorded-and_then :
    (m : Option Bss) (ms : List (Option Bss)) (old : ScanResult) (env : Env Call)
    (s : St Call (Unit {0})) (o : Outcome Call (Unit {0}) ScanResult)
    → RecordedOne m old s o
    → ((new : ScanResult) (t : St Call (Unit {0}))
        → length new.ssid ≡ 32
        → Recorded ms new t (handle_all ms new env t))
    → Recorded (m ∷ ms) old s (and_then o (λ new t. handle_all ms new env t))
unfolding last_recordable
Recorded-and_then m ms old env s (exited z t) h k = absurd h
Recorded-and_then m ms old env s (fault f t) h k = (h.0, λ all. h.1 all.0)
Recorded-and_then m ms old env s (ok new t) h k = go (handle_all ms new env t) (k new t h.1.1)
  where
    go : (p : Outcome Call (Unit {0}) ScanResult) → Recorded ms new t p → Recorded (m ∷ ms) old s p
    go (ok c u) r =
        ((h.0, r.0), Handled-trans (last_recordable ms) (recordable m) old new c s t u h.1 r.1)
    go (exited z u) r = r
    go (fault f u) r = (r.0, λ all. r.1 all.1)

-- The handler is given a result here; the program itself hands none over. From a name of 32 bytes, over
-- any sequence of messages: if a message with an address and a signal other than 0 has no zero byte
-- among the octets of its address, the handler reads beyond them. Otherwise it returns after every
-- message and calls nothing. If no message has an address and a signal other than 0 the result is as it
-- was; else, of the last that has, the name is the address up to its first zero byte, cut to 31 bytes,
-- and the strength is the hundredth part of the signal, rounded towards 0.
pub handle_all-Recorded :
    (ms : List (Option Bss)) (old : ScanResult) (env : Env Call) (s : St Call (Unit {0}))
    → length old.ssid ≡ 32
    → Recorded ms old s (handle_all ms old env s)
unfolding handle_all last_recordable
handle_all-Recorded [] old env s size = (tt, (refl, size, refl))
handle_all-Recorded (m ∷ ms) old env s size =
    Recorded-and_then m ms old env s (handle_wifi_scan m old env s)
      (handle-RecordedOne m old env s size) (λ new t. handle_all-Recorded ms new env t)
