-- ===== src/Kernel/Together.antt =====
-- A module in a kernel where others hold things too: what is held, counted, since the one gives
-- things back under what another took later.
pub mod Systems
pub mod Exit
pub mod OnHand
pub mod Drain
use linux_device_drivers.Base.{
  ℕ, ◌+◌, ℤ, ◌≡◌, ◌∙◌, sym, ap, Bool, true, false, some, List, [], ◌∷◌, ◌++◌, is_neg, if◌then◌else◌,
  arith, refl, append_assoc,
}
use linux_device_drivers.Machine.{St, Env, Log, ok, Returns, IfReturns}
use linux_device_drivers.Machine.Resources.{Resource, held}
use linux_device_drivers.Machine.Resources.Tally.{count}
use linux_device_drivers.Machine.Resources.Bag.{Alike, count-append}
use linux_device_drivers.Kernel.{Call, kernel_tracked}
use linux_device_drivers.Kernel.Lifecycle.{Driver, in_memory}

-- What a log has left on hand is these things, in any order.
abbrev pub HoldsLike : List Resource → Log Call → Type 0
HoldsLike rest l = (things : List Resource) × (held l ≡ some things) × Alike things rest

pub Alike-swap :
    (things xs ys rest : List Resource)
    → Alike things (xs ++ (ys ++ rest))
    → Alike things (ys ++ (xs ++ rest))
Alike-swap things xs ys rest h x =
    let a = count-append x xs (ys ++ rest) in
    let b = count-append x ys rest in
    let c = count-append x ys (xs ++ rest) in
    let d = count-append x xs rest in let e = h x in omega arith

append-alike :
    (front xs ys : List Resource) (x : Resource)
    → count x xs ≡ count x ys
    → count x (front ++ xs) ≡ count x (front ++ ys)
append-alike front xs ys x h =
    let a = count-append x front xs in let b = count-append x front ys in omega arith

Alike-front :
    (front xs rest things : List Resource)
    → Alike things (xs ++ rest)
    → Alike (front ++ things) ((front ++ xs) ++ rest)
Alike-front front xs rest things h x =
    rw (append_assoc front xs rest) (append-alike front things (xs ++ rest) x (h x))

Alike-middle :
    (front left xs rest things : List Resource)
    → Alike things ((front ++ xs) ++ rest)
    → Alike (left ++ things) ((front ++ (left ++ xs)) ++ rest)
Alike-middle front left xs rest things h x =
    let a = count-append x left things in
    let b = count-append x (front ++ (left ++ xs)) rest in
    let c = count-append x front (left ++ xs) in
    let d = count-append x left xs in
    let e = count-append x (front ++ xs) rest in
    let f = count-append x front xs in let g = h x in omega arith

-- What the functions of a module leave behind that it does not give back when it is removed, read off
-- the log after them: a failed load, and an operation.
pub record Leaves (Op : Type 0) : Type 0 where
  pub failed_load : Log Call → List Resource
  pub operated : Op → Log Call → List Resource

abbrev pub nothing_left : {Op : Type 0} → Leaves Op
nothing_left = record { failed_load = λ _. []; operated = λ _ _. [] }

module _ {G Op : Type 0} (d : Driver G Op) (leaves : Leaves Op) (env : Env Call) where
  -- The functions of a module whatever else is held: loading adds what the module owns, removing it
  -- takes that away, wherever it stands; a failed load and an operation add what they leave.
  pub record IsFramed : Type 0 where
    pub init_adds :
        (s : St Call G) (things : List Resource)
        → held s.log ≡ some things
        → IfReturns
            (λ r t.
              held t.log
              ≡ some ((if is_neg r then leaves.failed_load t.log else d.owns t.globals) ++ things))
            (d.init env s)
    pub exit_removes :
        (s : St Call G) (things rest : List Resource)
        → held s.log ≡ some things
        → Alike things (d.owns s.globals ++ rest)
        → Returns (λ _ t. HoldsLike rest t.log) (d.exit env s)
    pub operation_keeps :
        (op : Op) (s : St Call G) (things : List Resource)
        → held s.log ≡ some things
        → IfReturns
            (λ _ t.
              (held t.log ≡ some (leaves.operated op t.log ++ things))
              × (d.owns t.globals ≡ d.owns s.globals))
            (d.operation op env s)

-- A module that is loaded or not, with its static variables and what it has left behind.
pub record Module (G : Type 0) : Type 0 where
  pub loaded : Bool
  pub globals : G
  pub spare : List Resource

abbrev pub on_log : {G : Type 0} → Module G → Log Call → St Call G
on_log m l = record { globals = m.globals; log = l }

abbrev pub with_load : {G : Type 0} → Module G → Bool → List Resource → G → Module G
with_load m b left g = record { loaded = b; globals = g; spare = left ++ m.spare }

module _ {G Op : Type 0} (d : Driver G Op) (leaves : Leaves Op) where
  -- A step of a module.
  pub data Step (env : Env Call) (m : Module G) (l : Log Call) : Module G → Log Call → Type 0 where
    insmod :
        {t : St Call G} {r : ℤ}
        → m.loaded ≡ false
        → d.init env (in_memory d (on_log m l)) ≡ ok r t
        → is_neg r ≡ false
        → Step env m l (with_load m true [] t.globals) t.log
    insmod_fails :
        {t : St Call G} {r : ℤ}
        → m.loaded ≡ false
        → d.init env (in_memory d (on_log m l)) ≡ ok r t
        → is_neg r ≡ true
        → Step env m l (with_load m false (leaves.failed_load t.log) t.globals) t.log
    operate :
        {t : St Call G} {r : ℤ} (op : Op)
        → m.loaded ≡ true
        → d.operation op env (on_log m l) ≡ ok r t
        → Step env m l (with_load m true (leaves.operated op t.log) t.globals) t.log
    rmmod :
        {t : St Call G} {u : Unit {0}}
        → m.loaded ≡ true
        → d.exit env (on_log m l) ≡ ok u t
        → Step env m l (with_load m false [] t.globals) t.log

  -- What a module holds in each phase.
  abbrev pub part : Bool → G → List Resource
  part true g = d.owns g
  part false g = []

  abbrev pub holdings : Module G → List Resource
  holdings m = part m.loaded m.globals ++ m.spare

  pub Step-HoldsLike :
      (env : Env Call) (framed : IsFramed d leaves env) (rest : List Resource) (m n : Module G)
      (l k : Log Call)
      → Step env m l n k
      → HoldsLike (holdings m ++ rest) l
      → HoldsLike (holdings n ++ rest) k
  Step-HoldsLike env framed rest m n l k (insmod {t} {r} off eq p) h =
      let (things, all, alike) = rw off at h in
      let added = rw p at (rw eq at (framed.init_adds (in_memory d (on_log m l)) things all)) in
      (d.owns t.globals ++ things, added, Alike-front (d.owns t.globals) m.spare rest things alike)
  Step-HoldsLike env framed rest m n l k (insmod_fails {t} {r} off eq p) h =
      let (things, all, alike) = rw off at h in
      let left = leaves.failed_load t.log in
      let added = rw p at (rw eq at (framed.init_adds (in_memory d (on_log m l)) things all)) in
      (left ++ things, added, Alike-front left m.spare rest things alike)
  Step-HoldsLike env framed rest m n l k (operate {t} {r} op on eq) h =
      let (things, all, alike) = rw on at h in
      let left = leaves.operated op t.log in
      let kept = rw eq at (framed.operation_keeps op (on_log m l) things all) in
      (
        left ++ things,
        kept.0,
        rw (kept.1) (Alike-middle (d.owns m.globals) left m.spare rest things alike),
      )
  Step-HoldsLike env framed rest m n l k (rmmod {t} on eq) h =
      let (things, all, alike) = rw on at h in
      let owned : Alike things (d.owns m.globals ++ (m.spare ++ rest)) =
        rw (append_assoc (d.owns m.globals) m.spare rest) at alike in
      rw eq at (framed.exit_removes (on_log m l) things (m.spare ++ rest) all owned)
