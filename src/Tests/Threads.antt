-- ===== src/Tests/Threads.antt =====
-- Two threads that set the value of the ioctl driver at once.
use linux_device_drivers.Base.{ℕ, ℤ, zero, suc, pos, ◌≡◌, refl, [], ◌∷◌, get_or, set}
use linux_device_drivers.Machine.{Reply, Env, Outcome, ok, exited, fault, Returns, null}
use linux_device_drivers.Kernel.{Call, K, copy_from_user, printk, info}
use linux_device_drivers.CharDriver.Ioctl.{Globals, int32}
use linux_device_drivers.CharDriver.Ioctl.Register.{register}
use linux_device_drivers.CharDriver.Ioctl.Threads.{
  Pc, idle, entered, advance, SingleCall, World, not_in, begin, move, Reach, here, later,
}
use linux_device_drivers.CharDriver.Ioctl.Threads.Races.{
  IsOrderly, IsShared, ReturnsZero, Linear, Reach-IsOrderly,
}
use linux_device_drivers.CharDriver.Ioctl.Threads.Atomic.{Runs, register_of, Reach-Runs}
use linux_device_drivers.Tests.Support.{success, start}

abbrev command : ℕ → ℕ → ℕ → ℕ → ℕ
command n _ _ _ = n

-- The user's memory: the number at an address is the address.
abbrev answer : Call → Reply
answer (copy_from_user a _) = record success { bytes = a ∷ 0 ∷ 0 ∷ 0 ∷ [] }
answer _ = success

abbrev user : Env Call
user l c = answer c

abbrev beginning : World (command 1) (command 2)
beginning = record {
  threads = idle ∷ idle ∷ [];
  shared = start (record { value = 0 ∷ 0 ∷ 0 ∷ 0 ∷ []; dev = 0; dev_class = null });
}

abbrev entering : ℕ → ℕ → World (command 1) (command 2) → World (command 1) (command 2)
entering i arg w = record { threads = set w.threads i (entered 1 arg); shared = w.shared }

abbrev after_step :
    ℕ → World (command 1) (command 2) → Outcome Call Globals Pc → World (command 1) (command 2)
after_step i w (ok p t) = record { threads = set w.threads i p; shared = t }
after_step i w (exited _ _) = w
after_step i w (fault _ _) = w

abbrev moving : ℕ → World (command 1) (command 2) → World (command 1) (command 2)
moving i w =
    after_step i w (advance (command 1) (command 2) (get_or w.threads i idle) user w.shared)

-- Both have copied their number in; then the first goes on to its line.
abbrev both_in : World (command 1) (command 2)
both_in = moving 1 (moving 0 (entering 1 6 (entering 0 5 beginning)))

abbrev shown : World (command 1) (command 2)
shown = moving 0 (moving 0 both_in)

-- The first thread has set 5 and shows 6.
first_shows_six :
    shown.shared.log
    ≡ record { call = printk info "Value = %d\n" (pos 6 ∷ []); reply = success }
      ∷ both_in.shared.log
unfolding advance int32
first_shows_six = refl

shown_reached : Reach (command 1) (command 2) user beginning shown
unfolding advance
shown_reached =
    later
      (later
        (later (later (later (later here (begin 0 1 5 not_in)) (begin 1 1 6 not_in)) (move 0 refl))
          (move 1 refl))
        (move 0 refl))
      (move 0 refl)

none_returned : (i : ℕ) → ReturnsZero (get_or beginning.threads i idle)
none_returned zero = tt
none_returned (suc zero) = tt
none_returned (suc (suc i)) = tt

beginning-IsOrderly : IsOrderly (command 1) (command 2) (0 ∷ 0 ∷ 0 ∷ 0 ∷ []) user beginning
unfolding register Linear
beginning-IsOrderly = record {
  share = record { current = refl; linear = tt };
  zeros = none_returned;
}

Reach-IsOrderly_example :
    IsOrderly (command 1) (command 2) (0 ∷ 0 ∷ 0 ∷ 0 ∷ []) user shown
    × ((i : ℕ)
        → Returns
            (λ p t. IsShared (0 ∷ 0 ∷ 0 ∷ 0 ∷ []) t × ReturnsZero p)
            (advance (command 1) (command 2) (get_or shown.threads i idle) user shown.shared))
    × ((m : K Globals ℤ)
        → SingleCall m
        → Returns (λ _. IsShared (0 ∷ 0 ∷ 0 ∷ 0 ∷ [])) (m user shown.shared))
Reach-IsOrderly_example =
    Reach-IsOrderly (command 1) (command 2) (0 ∷ 0 ∷ 0 ∷ 0 ∷ []) user beginning-IsOrderly
      shown_reached

-- The register that the two threads make up has stored 5 and then 6.
Reach-Runs_example :
    Runs
      (command 1)
      (command 2)
      (register_of (command 1) (command 2) beginning)
      (register_of (command 1) (command 2) shown)
Reach-Runs_example = Reach-Runs (command 1) (command 2) user beginning shown shown_reached
