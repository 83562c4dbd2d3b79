-- ===== src/CharDriver/Ioctl/Threads/Atomic.antt =====
-- The threads implement an atomic register: each `ioctl` takes effect at one moment between its call
-- and its return.
use linux_device_drivers.Base.{
  ℕ, zero, suc, ℤ, ◌≡◌, ◌≢◌, ◌⊎◌, refl, true, false, List, [], ◌∷◌, map, arith, get_or, set,
  overlay, ◌==◌,
}
use linux_device_drivers.Machine.{St, Env, Log, Reply, Returns}
use linux_device_drivers.Kernel.{Call, K, copy_from_user, copy_to_user}
use linux_device_drivers.CharDriver.Ioctl.{
  Globals, int32, etx_open, etx_release, etx_read, etx_write, wr_value, rd_value,
}
use linux_device_drivers.CharDriver.Ioctl.Threads.{
  Pc, idle, entered, copied_in, showing, copied_out, returned, IsFree, not_in, done, advance, World,
  SingleCall, by_open, by_release, by_read, by_write, Step, begin, move, call, Reach, here, later,
}

-- What the register has done: it has stored bytes, or sent its own to an address.
pub data Event : Type 0 where
  stored : List ℕ → Event
  sent : ℕ → List ℕ → Event

-- Where a caller of the register stands: outside, before the moment of its call, or after it.
pub data Phase : Type 0 where
  outside : Phase
  pending : (cmd arg : ℕ) → Phase
  committed : Phase

pub record Register : Type 0 where
  pub callers : List Phase
  pub value : List ℕ
  pub events : List Event

abbrev pub Stores : List ℕ → List Event → List ℕ → List Event → Type 0
Stores v l w (stored bytes ∷ rest) = (rest ≡ l) × (w ≡ overlay bytes v)
Stores v l w _ = ⊥

module _ (iow ior : ℕ → ℕ → ℕ → ℕ) where
  -- What a caller in a phase may do to the register: begin a call; make its one change, by which it
  -- stores some bytes, sends those of the register, or does nothing; return.
  abbrev pub Acts : Phase → List ℕ → List Event → Phase → List ℕ → List Event → Type 0
  Acts outside v l q w k = (q ≢ committed) × (w ≡ v) × (k ≡ l)
  Acts (pending cmd arg) v l q w k =
      ((cmd == wr_value iow ior) ≡ true) × (q ≡ committed) × Stores v l w k
      ⊎ ((cmd == wr_value iow ior) ≡ false)
        × ((cmd == rd_value iow ior) ≡ true)
        × (q ≡ committed)
        × (w ≡ v)
        × (k ≡ sent arg v ∷ l)
      ⊎ ((cmd == wr_value iow ior) ≡ false)
        × ((cmd == rd_value iow ior) ≡ false)
        × (q ≡ outside)
        × (w ≡ v)
        × (k ≡ l)
  Acts committed v l q w k = ((q ≡ committed) ⊎ (q ≡ outside)) × (w ≡ v) × (k ≡ l)

  pub data Act (r : Register) : Register → Type 0 where
    act :
        (i : ℕ) (q : Phase) (w : List ℕ) (k : List Event)
        → Acts (get_or r.callers i outside) r.value r.events q w k
        → Act r (record { callers = set r.callers i q; value = w; events = k })

  pub data Runs (r : Register) : Register → Type 0 where
    start : Runs r r
    next : {s t : Register} → Runs r s → Act s t → Runs r t

-- The register that the threads make up.
abbrev pub phase : Pc → Phase
phase idle = outside
phase (entered cmd arg) = pending cmd arg
phase (copied_in _) = committed
phase showing = committed
phase (copied_out _) = committed
phase (returned _) = outside

abbrev pub add_event : Call → Reply → List Event → List Event
add_event (copy_from_user _ _) r older = stored r.bytes ∷ older
add_event (copy_to_user a bs) r older = sent a bs ∷ older
add_event _ r older = older

unfoldable pub events_of : Log Call → List Event
events_of [] = []
events_of (e ∷ l) = add_event e.call e.reply (events_of l)

get_or-map : (ps : List Pc) (i : ℕ) → get_or (map phase ps) i outside ≡ phase (get_or ps i idle)
get_or-map [] i = refl
get_or-map (p ∷ ps) zero = refl
get_or-map (p ∷ ps) (suc i) = get_or-map ps i

map-set : (ps : List Pc) (i : ℕ) (p : Pc) → map phase (set ps i p) ≡ set (map phase ps) i (phase p)
map-set [] i p = refl
map-set (q ∷ ps) zero p = refl
map-set (q ∷ ps) (suc i) p = let rest = map-set ps i p in cc

module _ (iow ior : ℕ → ℕ → ℕ → ℕ) where
  abbrev pub register_of : World iow ior → Register
  register_of w = record {
    callers = map phase w.threads;
    value = w.shared.globals.value;
    events = events_of w.shared.log;
  }

  -- What a thread does is what a caller of the register may do.
  abbrev ActsOn : Phase → St Call Globals → Pc → St Call Globals → Type 0
  ActsOn p s q t =
      Acts iow ior p s.globals.value (events_of s.log) (phase q) t.globals.value (events_of t.log)

  advance-Acts :
      (p : Pc) (env : Env Call) (s : St Call Globals)
      → Returns (ActsOn (phase p) s) (advance iow ior p env s)
  unfolding advance events_of int32
  advance-Acts idle env s = (λ e. cc, refl, refl)
  advance-Acts (entered cmd arg) env s = ground arith
  advance-Acts (copied_in code) env s = ground arith
  advance-Acts showing env s = ground arith
  advance-Acts (copied_out code) env s = ground arith
  advance-Acts (returned y) env s = (λ e. cc, refl, refl)

  single-Acts :
      (m : K Globals ℤ) (env : Env Call) (s : St Call Globals)
      → SingleCall m
      → Returns (λ _ t. ActsOn outside s idle t) (m env s)
  unfolding etx_open etx_release etx_read etx_write events_of
  single-Acts m env s by_open = ground arith
  single-Acts m env s by_release = ground arith
  single-Acts m env s (by_read len) = ground arith
  single-Acts m env s (by_write len) = ground arith

  IsFree-outside : (p : Pc) → IsFree p → phase p ≡ outside
  IsFree-outside p not_in = refl
  IsFree-outside p done = refl

  -- A thread's step, as an act on the register.
  thread-Act :
      (w : World iow ior) (i : ℕ) (q : Pc) (t : St Call Globals)
      → ActsOn (phase (get_or w.threads i idle)) w.shared q t
      → Act iow ior
          (register_of w)
          (register_of (record { threads = set w.threads i q; shared = t }))
  thread-Act w i q t h =
      rw (map-set w.threads i q)
        (act i (phase q) t.globals.value (events_of t.log) (rw (get_or-map w.threads i) h))

  Step-Act :
      (env : Env Call) (w u : World iow ior)
      → Step iow ior env w u
      → Act iow ior (register_of w) (register_of u)
  Step-Act env w u (begin i cmd arg free) =
      thread-Act w i (entered cmd arg) w.shared
        (rw (IsFree-outside (get_or w.threads i idle) free) (λ e. cc, refl, refl))
  Step-Act env w u (move i {p} {t} eq) =
      thread-Act w i p t (rw eq at (advance-Acts (get_or w.threads i idle) env w.shared))
  Step-Act env w u (call i m {z} {t} free one eq) = thread-Act w i idle t (
      rw (IsFree-outside (get_or w.threads i idle) free)
        (rw eq at (single-Acts m env w.shared one)))

  -- The threads that have the device open refine an atomic register, if each copy is one step:
  -- whatever they reach, in any order of their steps, the register reaches too, with the same value
  -- and with the copies from and to the user as its events. Each `ioctl` makes one change of the
  -- register, between its call and its return: `WR_VALUE` stores the bytes that were copied,
  -- `RD_VALUE` sends those of the register, and other commands do nothing.
  pub Reach-Runs :
      (env : Env Call) (w u : World iow ior)
      → Reach iow ior env w u
      → Runs iow ior (register_of w) (register_of u)
  Reach-Runs env w u here = start
  Reach-Runs env w u (later {w = v} {u = x} r step) =
      next (Reach-Runs env w v r) (Step-Act env v x step)
