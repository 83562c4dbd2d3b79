-- ===== src/Machine/Resources/Order.antt =====
-- Giving back in the order of a stack is a special case of giving back in any order.
use linux_device_drivers.Base.{◌≡◌, inl, inr, some, List, [], ◌∷◌, arith, Option-cases}
use linux_device_drivers.Machine.{Log}
use linux_device_drivers.Machine.Resources.{
  Resource, Effect, neutral, acquire, release, release_if_held, pop_if_held, erase_if_held, Tracked,
  pop_all, erase_all, apply_nested, apply_any, nested, held,
}

pop_all-erase_all : (rs xs ys : List Resource) → pop_all rs xs ≡ some ys → erase_all rs xs ≡ some ys
unfolding pop_all erase_all
pop_all-erase_all [] xs ys h = h
pop_all-erase_all (r ∷ rs) [] ys h = cc
pop_all-erase_all (r ∷ rs) (x ∷ xs) ys h = ground (arith, pop_all-erase_all rs xs ys)

pop_if_held-erase_if_held :
    (r : Resource) (xs ys : List Resource)
    → pop_if_held r xs ≡ some ys
    → erase_if_held r xs ≡ some ys
unfolding pop_if_held erase_if_held
pop_if_held-erase_if_held r [] ys h = h
pop_if_held-erase_if_held r (x ∷ xs) ys h = ground arith

apply_nested-apply_any :
    (e : Effect) (xs ys : List Resource) → apply_nested e xs ≡ some ys → apply_any e xs ≡ some ys
unfolding apply_nested apply_any
apply_nested-apply_any neutral xs ys h = h
apply_nested-apply_any (acquire r) xs ys h = h
apply_nested-apply_any (release rs) xs ys h = pop_all-erase_all rs xs ys h
apply_nested-apply_any (release_if_held r) xs ys h = pop_if_held-erase_if_held r xs ys h

module _ {C : Type 0} ⦃t : Tracked C⦄ where
  -- A log that gives everything back newest first holds the same things in any order.
  pub held_of_nested : (l : Log C) (xs : List Resource) → nested l ≡ some xs → held l ≡ some xs
  unfolding nested held
  held_of_nested [] xs h = h
  held_of_nested (e ∷ l) xs h = elim (Option-cases (nested l)) [
    | inl n ↦ ground arith
    | inr (ys, q) ↦
        rw (held_of_nested l ys q)
          (apply_nested-apply_any (t.effect e.call e.reply) ys xs (rw q at h))
  ]
