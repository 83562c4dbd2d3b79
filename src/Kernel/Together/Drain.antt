-- ===== src/Kernel/Together/Drain.antt =====
-- Removing all modules of a system, from wherever they are.
use linux_device_drivers.Base.{
  ◌≡◌, ◌∙◌, ap, true, false, List, [], ◌++◌, Bool-cases, inl, inr, refl, append_assoc,
}
use linux_device_drivers.Machine.{St, Env, Log, Outcome, ok, exited, fault, Returns}
use linux_device_drivers.Machine.Resources.{Resource}
use linux_device_drivers.Kernel.{Call, kernel_tracked}
use linux_device_drivers.Kernel.Lifecycle.{Driver}
use linux_device_drivers.Kernel.Together.{
  HoldsLike, Leaves, IsFramed, Module, on_log, with_load, rmmod, holdings, Step-HoldsLike,
}
use linux_device_drivers.Kernel.Together.Systems.{
  System, Framed, single-Framed, ⊗-Framed, single, ◌⊗◌, Both, left_moves, right_moves, Reaches,
  here, later, HoldsLike-assoc, HoldsLike-unassoc, HoldsLike-swap,
}

-- From this configuration one is reached where no module is loaded. Nothing more is left behind by
-- the way, and what is held is what the modules hold then, besides the rest.
pub record Drained (σ : System) (env : Env Call) (rest : List Resource) (c : σ.Config)
    (l : Log Call) : Type 0 where
  pub config : σ.Config
  pub log : Log Call
  pub reached : Reaches σ env c l config log
  pub idle : σ.Idle config
  pub no_more : σ.spares config ≡ σ.spares c
  pub held_then : HoldsLike (σ.holds config ++ rest) log

-- All modules can be removed, and hold no more than what they have left behind when they are.
pub record Drains (σ : System) (env : Env Call) : Type 0 where
  pub drain :
      (rest : List Resource) (c : σ.Config) (l : Log Call)
      → HoldsLike (σ.holds c ++ rest) l
      → Drained σ env rest c l
  pub idle_holds : (c : σ.Config) → σ.Idle c → σ.holds c ≡ σ.spares c

-- What returns has an outcome.
Returns-ok :
    {G A : Type 0} (P : A → St Call G → Type 0) (o : Outcome Call G A)
    → Returns P o
    → (a : A) × (s : St Call G) × (o ≡ ok a s)
Returns-ok P (ok a s) h = (a, s, refl)
Returns-ok P (exited z s) h = absurd h
Returns-ok P (fault f s) h = absurd h

module _ {G Op : Type 0} (d : Driver G Op) (leaves : Leaves Op) (env : Env Call)
    (framed : IsFramed d leaves env) where
  exit-Returns :
      (rest : List Resource) (m : Module G) (l : Log Call)
      → m.loaded ≡ true
      → HoldsLike (holdings d leaves m ++ rest) l
      → Returns (λ _ t. HoldsLike (m.spare ++ rest) t.log) (d.exit env (on_log m l))
  exit-Returns rest m l on h =
      let (things, all, alike) = rw on at h in
      framed.exit_removes (on_log m l) things (m.spare ++ rest) all
        (rw (append_assoc (d.owns m.globals) m.spare rest) at alike)

  single-drain :
      (rest : List Resource) (m : (single d leaves).Config) (l : Log Call)
      → HoldsLike ((single d leaves).holds m ++ rest) l
      → Drained (single d leaves) env rest m l
  unfolding single
  single-drain rest m l h = elim (Bool-cases m.loaded) [
    | inl on ↦
        let (u, t, eq) = Returns-ok _ (d.exit env (on_log m l)) (exit-Returns rest m l on h) in
        record {
          config = with_load m false [] t.globals;
          log = t.log;
          reached = later here (rmmod on eq);
          idle = refl;
          no_more = refl;
          held_then =
              Step-HoldsLike d leaves env framed rest m (with_load m false [] t.globals) l t.log
                (rmmod on eq) h;
        }
    | inr off ↦ record {
      config = m;
      log = l;
      reached = here;
      idle = off;
      no_more = refl;
      held_then = h;
    }
  ]

  single-idle :
      (m : (single d leaves).Config)
      → (single d leaves).Idle m
      → (single d leaves).holds m ≡ (single d leaves).spares m
  unfolding single
  single-idle m off = rw off refl

  single-Drains : Drains (single d leaves) env
  single-Drains = record { drain = single-drain; idle_holds = single-idle }

Reaches-trans :
    {σ : System} {env : Env Call} {c : σ.Config} {l : Log Call} {d : σ.Config} {k : Log Call}
    {e : σ.Config} {m : Log Call}
    → Reaches σ env c l d k
    → Reaches σ env d k e m
    → Reaches σ env c l e m
Reaches-trans r here = r
Reaches-trans r (later q step) = later (Reaches-trans r q) step

module _ (σ τ : System) (env : Env Call) where
  abbrev both : σ.Config → τ.Config → Both σ.Config τ.Config
  both c e = record { left = c; right = e }

  left-Reaches :
      (e : τ.Config) {c : σ.Config} {l : Log Call} {d : σ.Config} {k : Log Call}
      → Reaches σ env c l d k
      → unfold ◌⊗◌ in Reaches (σ ⊗ τ) env (both c e) l (both d e) k
  unfolding ◌⊗◌
  left-Reaches e here = here
  left-Reaches e (later r step) = later (left-Reaches e r) (left_moves step)

  right-Reaches :
      (c : σ.Config) {d : τ.Config} {l : Log Call} {e : τ.Config} {k : Log Call}
      → Reaches τ env d l e k
      → unfold ◌⊗◌ in Reaches (σ ⊗ τ) env (both c d) l (both c e) k
  unfolding ◌⊗◌
  right-Reaches c here = here
  right-Reaches c (later r step) = later (right-Reaches c r) (right_moves step)

  ⊗-drain :
      (f : Drains σ env) (g : Drains τ env) (rest : List Resource) (v : (σ ⊗ τ).Config)
      (l : Log Call)
      → HoldsLike ((σ ⊗ τ).holds v ++ rest) l
      → Drained (σ ⊗ τ) env rest v l
  unfolding ◌⊗◌
  ⊗-drain f g rest v l h =
      let first =
        f.drain (τ.holds v.right ++ rest) v.left l
          (HoldsLike-assoc (σ.holds v.left) (τ.holds v.right) rest l h) in
      let c = first.config in
      let swapped = HoldsLike-swap (σ.holds c) (τ.holds v.right) rest first.log first.held_then in
      let second = g.drain (σ.holds c ++ rest) v.right first.log swapped in
      let e = second.config in
      record {
        config = both c e;
        log = second.log;
        reached =
            Reaches-trans (left-Reaches v.right first.reached) (right-Reaches c second.reached);
        idle = (first.idle, second.idle);
        no_more =
            ap (λ x. x ++ τ.spares e) first.no_more ∙ ap (λ x. σ.spares v.left ++ x) second.no_more;
        held_then =
            HoldsLike-unassoc (σ.holds c) (τ.holds e) rest second.log
              (HoldsLike-swap (τ.holds e) (σ.holds c) rest second.log second.held_then);
      }

  ⊗-idle :
      (f : Drains σ env) (g : Drains τ env) (v : (σ ⊗ τ).Config)
      → (σ ⊗ τ).Idle v
      → (σ ⊗ τ).holds v ≡ (σ ⊗ τ).spares v
  unfolding ◌⊗◌
  ⊗-idle f g v (off, off2) =
      ap (λ x. x ++ τ.holds v.right) (f.idle_holds v.left off)
      ∙ ap (λ x. σ.spares v.left ++ x) (g.idle_holds v.right off2)

⊗-Drains : (σ τ : System) (env : Env Call) → Drains σ env → Drains τ env → Drains (σ ⊗ τ) env
⊗-Drains σ τ env f g = record { drain = ⊗-drain σ τ env f g; idle_holds = ⊗-idle σ τ env f g }

-- Both: steps take and give back the system's own things only, and all modules can be removed.
pub record IsShared (σ : System) (env : Env Call) : Type 0 where
  pub framed : Framed σ env
  pub drains : Drains σ env

pub single-IsShared :
    {G Op : Type 0} (d : Driver G Op) (leaves : Leaves Op) (env : Env Call)
    → IsFramed d leaves env
    → IsShared (single d leaves) env
single-IsShared d leaves env framed = record {
  framed = single-Framed d leaves env framed;
  drains = single-Drains d leaves env framed;
}

pub ⊗-IsShared :
    (σ τ : System) (env : Env Call) → IsShared σ env → IsShared τ env → IsShared (σ ⊗ τ) env
⊗-IsShared σ τ env f g = record {
  framed = ⊗-Framed σ τ env f.framed g.framed;
  drains = ⊗-Drains σ τ env f.drains g.drains;
}
