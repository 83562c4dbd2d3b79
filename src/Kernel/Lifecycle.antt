-- ===== src/Kernel/Lifecycle.antt =====
-- The interface of a driver module: what its init and exit functions and its operations promise
-- about the kernel's resources, and what follows for every life of the module.
use linux_device_drivers.Base.{ℤ, ◌≡◌, ◌⊎◌, Bool, true, false, some, List, ◌++◌, not, is_neg, arith}
use linux_device_drivers.Machine.{St, Env, ok, Returns, Returns-mono, IfReturns, Returns-IfReturns}
use linux_device_drivers.Machine.Resources.{Resource, nested}
use linux_device_drivers.Kernel.{Call, K, kernel_tracked}
use linux_device_drivers.Kernel.History.{verdict}

-- `statics` are the static variables of a module that has just been put into memory; `owns` says what
-- a loaded module holds, given its static variables.
pub record Driver (G Op : Type 0) : Type 0 where
  pub statics : G
  pub init : K G ℤ
  pub exit : K G (Unit {0})
  pub operation : Op → K G ℤ
  pub owns : G → List Resource

-- What is held after `insmod`: a number below zero says that the module was not loaded.
abbrev pub Loads : {G : Type 0} → (G → List Resource) → List Resource → ℤ → St Call G → Type 0
Loads owns base r s =
    (is_neg r ≡ true) × (nested s.log ≡ some base)
    ⊎ (is_neg r ≡ false) × (nested s.log ≡ some (owns s.globals ++ base))

-- The same, and the number returned is what the newest call that can fail has reported: a failure
-- is passed on unchanged, and 0 says that every call has succeeded.
abbrev pub Initialises : {G : Type 0} → (G → List Resource) → List Resource → ℤ → St Call G → Type 0
Initialises owns base r s = Loads owns base r s × (r ≡ verdict s.log)

-- An operation leaves what is held, and what the module owns, as it was.
abbrev pub Keeps : {G : Type 0} → (G → List Resource) → List Resource → St Call G → Type 0
Keeps owns base s = nested s.log ≡ some (owns s.globals ++ base)

module _ {G Op : Type 0} (d : Driver G Op) where
  pub record IsBalanced : Type 0 where
    pub init_loads :
        (env : Env Call) (s : St Call G) (base : List Resource)
        → nested s.log ≡ some base
        → Returns (Loads d.owns base) (d.init env s)
    pub exit_releases :
        (env : Env Call) (s : St Call G) (base : List Resource)
        → nested s.log ≡ some (d.owns s.globals ++ base)
        → Returns (λ _ s'. nested s'.log ≡ some base) (d.exit env s)
    pub operation_keeps :
        (op : Op) (env : Env Call) (s : St Call G) (base : List Resource)
        → nested s.log ≡ some (d.owns s.globals ++ base)
        → Returns (λ _. Keeps d.owns base) (d.operation op env s)

  -- The module put into memory.
  abbrev pub in_memory : St Call G → St Call G
  in_memory s = record s { globals = d.statics }

  -- The lives of a module: it is loaded, used and removed any number of times.
  pub data Life (env : Env Call) (start : St Call G) : Bool → St Call G → Type 0 where
    fresh : Life env start false start
    insmod :
        {s t : St Call G} {r : ℤ}
        → Life env start false s
        → d.init env (in_memory s) ≡ ok r t
        → is_neg r ≡ false
        → Life env start true t
    insmod_fails :
        {s t : St Call G} {r : ℤ}
        → Life env start false s
        → d.init env (in_memory s) ≡ ok r t
        → is_neg r ≡ true
        → Life env start false t
    operate :
        {s t : St Call G} {r : ℤ} (op : Op)
        → Life env start true s
        → d.operation op env s ≡ ok r t
        → Life env start true t
    rmmod :
        {s t : St Call G} {u : Unit {0}}
        → Life env start true s
        → d.exit env s ≡ ok u t
        → Life env start false t

  -- What holds of a module in both phases of its life, if each function keeps it.
  pub Life-invariant :
      (P : Bool → St Call G → Type 0) (env : Env Call)
      → ((s : St Call G) → P false s → Returns (λ r. P (not (is_neg r))) (d.init env (in_memory s)))
      → ((s : St Call G) → P true s → Returns (λ _. P false) (d.exit env s))
      → ((op : Op) (s : St Call G) → P true s → IfReturns (λ _. P true) (d.operation op env s))
      → {start : St Call G} {loaded : Bool} {s : St Call G} → P false start
      → Life env start loaded s
      → P loaded s
  Life-invariant P env i e o h fresh = h
  Life-invariant P env i e o h (insmod {s} {t} {r} life eq p) =
      rw p at (rw eq at (i s (Life-invariant P env i e o h life)))
  Life-invariant P env i e o h (insmod_fails {s} {t} {r} life eq p) =
      rw p at (rw eq at (i s (Life-invariant P env i e o h life)))
  Life-invariant P env i e o h (operate {s} {t} {r} op life eq) =
      rw eq at (o op s (Life-invariant P env i e o h life))
  Life-invariant P env i e o h (rmmod {s} {t} life eq) =
      rw eq at (e s (Life-invariant P env i e o h life))

  abbrev pub Balance : List Resource → Bool → St Call G → Type 0
  Balance base true s = nested s.log ≡ some (d.owns s.globals ++ base)
  Balance base false s = nested s.log ≡ some base

  Loads-Balance :
      (base : List Resource) (r : ℤ) (t : St Call G)
      → Loads d.owns base r t
      → Balance base (not (is_neg r)) t
  Loads-Balance base r t h = ground arith

  pub Life-Balance :
      IsBalanced
      → {env : Env Call} {start : St Call G} (base : List Resource) {loaded : Bool} {s : St Call G}
      → nested start.log ≡ some base
      → Life env start loaded s
      → Balance base loaded s
  Life-Balance b {env} base h life =
      Life-invariant (Balance base) env
        (λ s p.
          Returns-mono _ _ (d.init env (in_memory s)) (Loads-Balance base)
            (b.init_loads env (in_memory s) base p))
        (λ s p. b.exit_releases env s base p)
        (λ op s p.
          Returns-IfReturns (λ _. Balance base true) (d.operation op env s)
            (b.operation_keeps op env s base p))
        h life
