-- ===== src/CharDriver/Ioctl/Threads/Races.antt =====
-- What several threads in `etx_ioctl` make of the one value.
use linux_device_drivers.Base.{
  ℕ, zero, suc, pos, ℤ, ◌≡◌, List, [], ◌∷◌, arith, get_or, set, ap, refl,
}
use linux_device_drivers.Machine.{St, Env, Log, Returns}
use linux_device_drivers.Kernel.{Call, K, printk, copy_to_user}
use linux_device_drivers.CharDriver.Ioctl.{
  Globals, int32, etx_open, etx_release, etx_read, etx_write,
}
use linux_device_drivers.CharDriver.Ioctl.Register.{register}
use linux_device_drivers.CharDriver.Ioctl.Threads.{
  Pc, idle, entered, copied_in, showing, copied_out, returned, advance, World, SingleCall, by_open,
  by_release, by_read, by_write, Step, begin, move, call, Reach, here, later,
}

-- What a call may give out while the register holds `v`: its bytes, or the number they stand for.
abbrev pub GivesOut : Call → List ℕ → Type 0
GivesOut (copy_to_user _ bs) v = bs ≡ v
GivesOut (printk _ _ (z ∷ [])) v = z ≡ int32 v
GivesOut _ v = Unit {0}

-- Each call of a log has given out the register as it was when the call was made.
unfoldable pub Linear : List ℕ → Log Call → Type 0
unfolding register
Linear v [] = Unit {0}
Linear v (e ∷ l) = GivesOut e.call (register v l) × Linear v l

-- A thread that has returned has returned 0.
abbrev pub ReturnsZero : Pc → Type 0
ReturnsZero (returned z) = z ≡ pos 0
ReturnsZero _ = Unit {0}

pub record IsShared (v : List ℕ) (s : St Call Globals) : Type 0 where
  pub current : s.globals.value ≡ register v s.log
  pub linear : Linear v s.log

advance-IsShared :
    (iow ior : ℕ → ℕ → ℕ → ℕ) (p : Pc) (v : List ℕ) (env : Env Call) (s : St Call Globals)
    → IsShared v s
    → ReturnsZero p
    → Returns (λ q t. IsShared v t × ReturnsZero q) (advance iow ior p env s)
unfolding advance register Linear int32
advance-IsShared iow ior idle v env s h z = ground arith
advance-IsShared iow ior (entered cmd arg) v env s h z = ground arith
advance-IsShared iow ior (copied_in code) v env s h z = ground arith
advance-IsShared iow ior showing v env s h z =
    (record { current = h.current; linear = (ap int32 h.current, h.linear) }, refl)
advance-IsShared iow ior (copied_out code) v env s h z = ground arith
advance-IsShared iow ior (returned y) v env s h z = ground arith

single-IsShared :
    (m : K Globals ℤ) (v : List ℕ) (env : Env Call) (s : St Call Globals)
    → SingleCall m
    → IsShared v s
    → Returns (λ _. IsShared v) (m env s)
unfolding etx_open etx_release etx_read etx_write register Linear
single-IsShared m v env s by_open h = ground arith
single-IsShared m v env s by_release h = ground arith
single-IsShared m v env s (by_read len) h = ground arith
single-IsShared m v env s (by_write len) h = ground arith

-- Every thread but one stands where it stood.
AllOf-set :
    (P : Pc → Type 0) (ps : List Pc) (i : ℕ) (p : Pc)
    → P p
    → ((j : ℕ) → P (get_or ps j idle))
    → (j : ℕ) → P (get_or (set ps i p) j idle)
AllOf-set P [] i p h all j = all j
AllOf-set P (q ∷ ps) zero p h all zero = h
AllOf-set P (q ∷ ps) zero p h all (suc j) = all (suc j)
AllOf-set P (q ∷ ps) (suc i) p h all zero = all zero
AllOf-set P (q ∷ ps) (suc i) p h all (suc j) = AllOf-set P ps i p h (λ k. all (suc k)) j

module _ (iow ior : ℕ → ℕ → ℕ → ℕ) (v : List ℕ) (env : Env Call) where
  pub record IsOrderly (w : World iow ior) : Type 0 where
    pub share : IsShared v w.shared
    pub zeros : (i : ℕ) → ReturnsZero (get_or w.threads i idle)

  Step-IsOrderly : (w u : World iow ior) → Step iow ior env w u → IsOrderly w → IsOrderly u
  Step-IsOrderly w u (begin i cmd arg free) h = record {
    share = h.share;
    zeros = AllOf-set ReturnsZero w.threads i (entered cmd arg) tt h.zeros;
  }
  Step-IsOrderly w u (move i {p} {t} eq) h =
      let k =
        rw eq at
          (advance-IsShared iow ior (get_or w.threads i idle) v env w.shared h.share (h.zeros i)) in
      record { share = k.0; zeros = AllOf-set ReturnsZero w.threads i p k.1 h.zeros }
  Step-IsOrderly w u (call i m {z} {t} free one eq) h =
      let k = rw eq at (single-IsShared m v env w.shared one h.share) in
      record { share = k; zeros = AllOf-set ReturnsZero w.threads i idle tt h.zeros }

  -- Threads that call the operations of the device at once, their calls mixed in any order, if each
  -- copy is one step: in every state that they reach, neither the next step of a thread in `etx_ioctl`
  -- nor a call of one of the other four operations faults; `value` is what all copies from the user have made of it, one
  -- after the other; every copy to the user and every line on the value gives out what `value` was at
  -- that moment, though another thread may have changed it; and each `ioctl` returns 0.
  pub Reach-IsOrderly :
      {start w : World iow ior}
      → IsOrderly start
      → Reach iow ior env start w
      → IsOrderly w
        × ((i : ℕ)
            → Returns
                (λ p t. IsShared v t × ReturnsZero p)
                (advance iow ior (get_or w.threads i idle) env w.shared))
        × ((m : K Globals ℤ) → SingleCall m → Returns (λ _. IsShared v) (m env w.shared))
  Reach-IsOrderly h r =
      let k = orderly h r in
      (
        k,
        λ i. advance-IsShared iow ior (get_or _ i idle) v env _ k.share (k.zeros i),
        λ m one. single-IsShared m v env _ one k.share,
      )
    where
      orderly :
          {start w : World iow ior} → IsOrderly start → Reach iow ior env start w → IsOrderly w
      orderly h here = h
      orderly h (later {w} {u} r step) = Step-IsOrderly w u step (orderly h r)
