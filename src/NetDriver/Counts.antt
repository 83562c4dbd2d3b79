-- ===== src/NetDriver/Counts.antt =====
-- What a network driver holds, counted: its registration, packets, and memory.
use linux_device_drivers.Base.{
  ℕ, ◌≡◌, Bool, Option, none, some, List, refl, true, false, not, is_neg, arith, if◌then◌else◌,
}
use linux_device_drivers.Machine.{St, Env, Log, Returns, IfReturns}
use linux_device_drivers.Machine.Resources.{Resource, resource, net_device, skb, memory, held}
use linux_device_drivers.Machine.Resources.Tally.{tally, count, Erased, erase_one-Erased}
use linux_device_drivers.Kernel.{Call, kernel_tracked}
use linux_device_drivers.Kernel.Lifecycle.{Driver, in_memory, Life, Life-invariant}

-- What is held in each phase, whatever its order: the registration, `n` packets, and no memory.
abbrev pub Lists : Bool → ℕ → Option (List Resource) → Type 0
Lists loaded n none = ⊥
Lists loaded n (some things) =
    (count (resource net_device 0) things ≡ (if loaded then 1 else 0))
    × (tally skb things ≡ n)
    × (tally memory things ≡ 0)

-- What a list that is there holds.
Lists-some :
    (loaded : Bool) (n : ℕ) (o : Option (List Resource))
    → Lists loaded n o
    → (things : List Resource) × (o ≡ some things) × Lists loaded n (some things)
Lists-some loaded n none h = absurd h
Lists-some loaded n (some things) h = (things, refl, h)

module _ {G Op : Type 0} (d : Driver G Op) (packets : Log Call → ℕ) (env : Env Call) where
  -- What a module holds in each phase, whatever its order.
  abbrev pub CountsOf : Bool → St Call G → Type 0
  CountsOf loaded s = Lists loaded (packets s.log) (held s.log)

  -- A module whose functions keep to the counts does so in every life. Unloading is given the list
  -- without the registration.
  pub Life-CountsOf :
      ((s : St Call G) (things : List Resource)
        → held s.log ≡ some things
        → Lists false (packets s.log) (some things)
        → Returns (λ r. CountsOf (not (is_neg r))) (d.init env (in_memory d s)))
      → ((s : St Call G) (things rest : List Resource)
          → held s.log ≡ some things
          → Erased (resource net_device 0) things rest
          → Lists true (packets s.log) (some things)
          → Returns (λ _. CountsOf false) (d.exit env s))
      → ((op : Op) (s : St Call G) (things : List Resource)
          → held s.log ≡ some things
          → Lists true (packets s.log) (some things)
          → IfReturns (λ _. CountsOf true) (d.operation op env s))
      → {start : St Call G} {loaded : Bool} {s : St Call G} → CountsOf false start
      → Life d env start loaded s
      → CountsOf loaded s
  Life-CountsOf loads releases operates =
      Life-invariant d CountsOf env
        (λ s c.
          let (things, all, l) = Lists-some false (packets s.log) (held s.log) c in
          loads s things all l)
        (λ s c.
          let (things, all, l) = Lists-some true (packets s.log) (held s.log) c in
          let (rest, erased) = erase_one-Erased (resource net_device 0) things (omega arith) in
          releases s things rest all erased l)
        (λ op s c.
          let (things, all, l) = Lists-some true (packets s.log) (held s.log) c in
          operates op s things all l)
