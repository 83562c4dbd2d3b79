-- ===== src/CharDriver/FixedNumber.antt =====
-- Whether two drivers with a fixed device number do the same, up to their names, their texts and
-- their major numbers.
pub mod Agreement
use linux_device_drivers.Base.{ℕ, ℤ, pos, ◌≡◌, ◌⊎◌, refl, List, [], ◌∷◌, map}
use linux_device_drivers.Machine.{
  St, Env, Log, Event, Reply, Outcome, ok, exited, fault, and_then, pure, put, ◌>>=◌, ◌>>◌,
}
use linux_device_drivers.Kernel.{
  Call, K, FileOp, printk, mkdev, register_chrdev_region, unregister_chrdev_region, cdev_add,
}
use linux_device_drivers.Kernel.Lifecycle.{Driver}

-- A call without the texts, the name, the major number and the device number in it.
abbrev pub erase : Call → Call
erase (printk level text args) = printk level "" args
erase (mkdev major minor) = mkdev 0 minor
erase (register_chrdev_region dev count name) = register_chrdev_region 0 count ""
erase (unregister_chrdev_region dev count) = unregister_chrdev_region 0 count
erase (cdev_add p dev count) = cdev_add p 0 count
erase c = c

-- The device number that MKDEV makes is left out as well.
abbrev pub erase_reply : Call → Reply → Reply
erase_reply (mkdev major minor) r = record r { num = 0 }
erase_reply c r = r

abbrev pub erase_event : Event Call → Event Call
erase_event e = record { call = erase e.call; reply = erase_reply e.call e.reply }

abbrev pub erase_log : Log Call → Log Call
erase_log [] = []
erase_log (e ∷ l) = erase_event e ∷ erase_log l

-- The device number is the one that `number` makes of the major and the minor number.
abbrev pub with_number : (ℕ → ℕ → ℕ) → Call → Reply → Reply
with_number number (mkdev major minor) r = record r { num = number major minor }
with_number number c r = r

-- A kernel whose answers do not depend on what is erased. Only MKDEV, which is `number`, tells the
-- major numbers apart.
abbrev pub blind : (ℕ → ℕ → ℕ) → Env Call → Env Call
blind number env l c = with_number number c (env (erase_log l) (erase c))

-- What may be asked of a module, and what it answers: 0 for its removal.
pub data Step : Type 0 where
  load unload : Step
  operate : FileOp → Step

abbrev pub answer : {G : Type 0} → Driver G FileOp → Step → K G ℤ
answer d load = put d.statics >> d.init
answer d unload = do d.exit; pure (pos 0)
answer d (operate op) = d.operation op

unfoldable pub answers : {G : Type 0} → Driver G FileOp → List Step → K G (List ℤ)
answers d [] = pure []
answers d (x ∷ xs) = do z ← answer d x; zs ← answers d xs; pure (z ∷ zs)

-- Each driver keeps the device number of its own major number, or neither has been loaded.
abbrev pub Own : (ℕ → ℕ → ℕ) → (major major' dev dev' : ℕ) → Type 0
Own number major major' dev dev' =
    (dev ≡ 0) × (dev' ≡ 0) ⊎ (dev ≡ number major 0) × (dev' ≡ number major' 0)

-- `major` and `major'` are the major numbers of two drivers, with minor number 0.
module _ {G H : Type 0} (number : ℕ → ℕ → ℕ) (major major' : ℕ) (dev : G → ℕ) (dev' : H → ℕ) where
  -- The device numbers, each driver's own, and the same calls and answers.
  abbrev pub Same : St Call G → St Call H → Type 0
  Same s t =
      Own number major major' (dev s.globals) (dev' t.globals) × (erase_log s.log ≡ erase_log t.log)

  abbrev pub EndSame : {A : Type 0} → Outcome Call G A → Outcome Call H A → Type 0
  EndSame (ok a s) (ok b t) = (a ≡ b) × Same s t
  EndSame (exited y s) (exited z t) = (y ≡ z) × Same s t
  EndSame (fault e s) (fault f t) = (e ≡ f) × Same s t
  EndSame _ _ = ⊥

  EndSame-and_then :
      {A B : Type 0} (o : Outcome Call G A) (p : Outcome Call H A)
      (f : A → St Call G → Outcome Call G B) (g : A → St Call H → Outcome Call H B)
      → ((a : A) (s : St Call G) (t : St Call H) → Same s t → EndSame (f a s) (g a t))
      → EndSame o p
      → EndSame (and_then o f) (and_then p g)
  EndSame-and_then (ok a s) (ok b t) f g k h = rw (h.0) (k b s t h.1)
  EndSame-and_then (ok a s) (exited z t) f g k h = absurd h
  EndSame-and_then (ok a s) (fault e t) f g k h = absurd h
  EndSame-and_then (exited y s) (ok b t) f g k h = absurd h
  EndSame-and_then (exited y s) (exited z t) f g k h = h
  EndSame-and_then (exited y s) (fault e t) f g k h = absurd h
  EndSame-and_then (fault e s) (ok b t) f g k h = absurd h
  EndSame-and_then (fault e s) (exited z t) f g k h = absurd h
  EndSame-and_then (fault e s) (fault e' t) f g k h = h

  -- Every step of the one driver is matched by the other.
  abbrev pub Agree : Driver G FileOp → Driver H FileOp → Type 0
  Agree d e =
      (x : Step) (env : Env Call) (s : St Call G) (t : St Call H)
      → Same s t
      → EndSame (answer d x (blind number env) s) (answer e x (blind number env) t)

  pub answers-EndSame :
      (d : Driver G FileOp) (e : Driver H FileOp)
      → Agree d e
      → (xs : List Step) (env : Env Call) (s : St Call G) (t : St Call H) → Same s t
      → EndSame (answers d xs (blind number env) s) (answers e xs (blind number env) t)
  unfolding answers
  answers-EndSame d e agree [] env s t h = (refl, h)
  answers-EndSame d e agree (x ∷ xs) env s t h =
      EndSame-and_then (answer d x (blind number env) s) (answer e x (blind number env) t) _ _
        (λ z u v same.
          EndSame-and_then (answers d xs (blind number env) u) (answers e xs (blind number env) v) _
            _ (λ zs u' v' same'. (refl, same')) (answers-EndSame d e agree xs env u v same))
        (agree x env s t h)
