-- ===== src/Kernel/Together/Systems.antt =====
-- Several modules in one kernel, whose steps are made in any order.
use linux_device_drivers.Base.{List, ◌++◌, ◌≡◌, false, append_assoc}
use linux_device_drivers.Machine.{Env, Log}
use linux_device_drivers.Machine.Resources.{Resource}
use linux_device_drivers.Kernel.{Call, kernel_tracked}
use linux_device_drivers.Kernel.Lifecycle.{Driver}
use linux_device_drivers.Kernel.Together.{
  HoldsLike, Alike-swap, Leaves, IsFramed, Module, Step, holdings, Step-HoldsLike,
}

-- Several modules that make calls of one kernel, one step at a time: their configurations, their
-- steps, what a configuration holds, that no module of it is loaded, and what modules have left behind.
pub record System : Type 1 where
  pub Config : Type 0
  pub Moves : Env Call → Config → Log Call → Config → Log Call → Type 0
  pub holds : Config → List Resource
  pub Idle : Config → Type 0
  pub spares : Config → List Resource

-- A system of one module.
unfoldable pub single : {G Op : Type 0} → Driver G Op → Leaves Op → System
single {G} d leaves = record {
  Config = Module G;
  Moves = λ env m l n k. Step d leaves env m l n k;
  holds = λ m. holdings d leaves m;
  Idle = λ m. m.loaded ≡ false;
  spares = λ m. m.spare;
}

pub record Both (C D : Type 0) : Type 0 where
  pub left : C
  pub right : D

-- Two systems side by side: a step of the one leaves the configuration of the other.
pub data EitherMoves (σ τ : System) (env : Env Call)
    : Both σ.Config τ.Config → Log Call → Both σ.Config τ.Config → Log Call → Type 0 where
  left_moves :
      {c c' : σ.Config} {e : τ.Config} {l l' : Log Call}
      → σ.Moves env c l c' l'
      → EitherMoves σ τ env (record { left = c; right = e }) l (record { left = c'; right = e }) l'
  right_moves :
      {c : σ.Config} {e e' : τ.Config} {l l' : Log Call}
      → τ.Moves env e l e' l'
      → EitherMoves σ τ env (record { left = c; right = e }) l (record { left = c; right = e' }) l'

infixr 5 ◌⊗◌
unfoldable pub ◌⊗◌ : System → System → System
σ ⊗ τ = record {
  Config = Both σ.Config τ.Config;
  Moves = EitherMoves σ τ;
  holds = λ c. σ.holds c.left ++ τ.holds c.right;
  Idle = λ c. σ.Idle c.left × τ.Idle c.right;
  spares = λ c. σ.spares c.left ++ τ.spares c.right;
}

-- The steps of a system take and give back its own things only.
pub record Framed (σ : System) (env : Env Call) : Type 0 where
  pub keeps :
      (rest : List Resource) (c c' : σ.Config) (l l' : Log Call)
      → σ.Moves env c l c' l'
      → HoldsLike (σ.holds c ++ rest) l
      → HoldsLike (σ.holds c' ++ rest) l'

pub single-Framed :
    {G Op : Type 0} (d : Driver G Op) (leaves : Leaves Op) (env : Env Call)
    → IsFramed d leaves env
    → Framed (single d leaves) env
unfolding single
single-Framed d leaves env framed = record { keeps = Step-HoldsLike d leaves env framed }

pub HoldsLike-assoc :
    (xs ys rest : List Resource) (l : Log Call)
    → HoldsLike ((xs ++ ys) ++ rest) l
    → HoldsLike (xs ++ (ys ++ rest)) l
HoldsLike-assoc xs ys rest l h = rw (append_assoc xs ys rest) at h

pub HoldsLike-unassoc :
    (xs ys rest : List Resource) (l : Log Call)
    → HoldsLike (xs ++ (ys ++ rest)) l
    → HoldsLike ((xs ++ ys) ++ rest) l
HoldsLike-unassoc xs ys rest l h = rw (append_assoc xs ys rest) h

pub HoldsLike-swap :
    (xs ys rest : List Resource) (l : Log Call)
    → HoldsLike (xs ++ (ys ++ rest)) l
    → HoldsLike (ys ++ (xs ++ rest)) l
HoldsLike-swap xs ys rest l (things, all, alike) = (things, all, Alike-swap things xs ys rest alike)

⊗-keeps :
    (σ τ : System) (env : Env Call) (f : Framed σ env) (g : Framed τ env) (rest : List Resource)
    (v w : (σ ⊗ τ).Config) (l l' : Log Call)
    → (σ ⊗ τ).Moves env v l w l'
    → HoldsLike ((σ ⊗ τ).holds v ++ rest) l
    → HoldsLike ((σ ⊗ τ).holds w ++ rest) l'
unfolding ◌⊗◌
⊗-keeps σ τ env f g rest v w l l' (left_moves {c} {c'} {e} step) h =
    HoldsLike-unassoc (σ.holds c') (τ.holds e) rest l' (
      f.keeps (τ.holds e ++ rest) c c' l l' step (HoldsLike-assoc (σ.holds c) (τ.holds e) rest l h))
⊗-keeps σ τ env f g rest v w l l' (right_moves {c} {e} {e'} step) h =
    HoldsLike-unassoc (σ.holds c) (τ.holds e') rest l' (
      HoldsLike-swap (τ.holds e') (σ.holds c) rest l' (
        g.keeps (σ.holds c ++ rest) e e' l l' step (
          HoldsLike-swap (σ.holds c) (τ.holds e) rest l
            (HoldsLike-assoc (σ.holds c) (τ.holds e) rest l h))))

pub ⊗-Framed : (σ τ : System) (env : Env Call) → Framed σ env → Framed τ env → Framed (σ ⊗ τ) env
⊗-Framed σ τ env f g = record { keeps = ⊗-keeps σ τ env f g }

-- What a system reaches from a configuration and a log, in any number of steps.
pub data Reaches (σ : System) (env : Env Call) (c : σ.Config) (l : Log Call)
    : σ.Config → Log Call → Type 0 where
  here : Reaches σ env c l c l
  later :
      {d e : σ.Config} {k m : Log Call}
      → Reaches σ env c l d k
      → σ.Moves env d k e m
      → Reaches σ env c l e m

pub Reaches-HoldsLike :
    (σ : System) (env : Env Call) (framed : Framed σ env) (rest : List Resource) (c : σ.Config)
    (l : Log Call) (d : σ.Config) (k : Log Call)
    → HoldsLike (σ.holds c ++ rest) l
    → Reaches σ env c l d k
    → HoldsLike (σ.holds d ++ rest) k
Reaches-HoldsLike σ env framed rest c l d k h here = h
Reaches-HoldsLike σ env framed rest c l d k h (later {d = b} {e = e} {k = m} {m = n} r step) =
    framed.keeps rest b d m k step (Reaches-HoldsLike σ env framed rest c l b m h r)
