-- ===== src/Kernel/Together/Exit.antt =====
-- Giving back one thing of several modules' things.
use linux_device_drivers.Base.{
  ◌<◌, ◌≡◌, ==_refl, true, some, List, [], ◌∷◌, arith, Bool-cases, inl, inr, Option-cases,
}
use linux_device_drivers.Machine.Resources.{
  Resource, on_some, same, erase_one, is_held, erase_if_held,
}
use linux_device_drivers.Machine.Resources.Tally.{count}
use linux_device_drivers.Machine.Resources.Bag.{Alike}

same_refl : (r : Resource) → same r r ≡ true
unfolding same
same_refl r = ground (arith, ==_refl r.id)

Alike-here : (r y : Resource) (xs : List Resource) → same r y ≡ true → Alike (y ∷ xs) (r ∷ xs)
unfolding same count
Alike-here r y xs e x = ground arith

Alike-there :
    (r y : Resource) (xs ys : List Resource) → Alike xs (r ∷ ys) → Alike (y ∷ xs) (r ∷ y ∷ ys)
unfolding count
Alike-there r y xs ys h x = ground (arith, h x)

erase_one-Alike :
    (r : Resource) (xs : List Resource)
    → 0 < count r xs
    → (ys : List Resource) × (erase_one r xs ≡ some ys) × Alike xs (r ∷ ys)
unfolding count erase_one
erase_one-Alike r [] h = absurd (omega arith)
erase_one-Alike r (y ∷ xs) h = elim (Bool-cases (same r y)) [
  | inl e ↦ (xs, ground arith, Alike-here r y xs e)
  | inr e ↦
      let (ys, erased, alike) = erase_one-Alike r xs (ground arith) in
      (y ∷ ys, ground arith, Alike-there r y xs ys alike)
]

-- The thing that is given back is there, and the others stay.
pub give_back :
    (r : Resource) (things rest : List Resource)
    → Alike things (r ∷ rest)
    → (ys : List Resource) × (erase_one r things ≡ some ys) × Alike ys rest
unfolding count
give_back r things rest h =
    let there : 0 < count r things = ground (arith, h r, same_refl r) in
    let (ys, erased, alike) = erase_one-Alike r things there in
    (ys, erased, λ x. ground (arith, h x, alike x))

-- Two things that are given back one after the other.
pub give_back_two :
    (r q : Resource) (things rest : List Resource)
    → Alike things (r ∷ q ∷ rest)
    → (ys : List Resource) × (on_some (erase_one r things) (erase_one q) ≡ some ys) × Alike ys rest
give_back_two r q things rest h =
    let (xs, one, left) = give_back r things (q ∷ rest) h in
    let (ys, two, left2) = give_back q xs rest left in (ys, ground arith, left2)

erase_one-is_held :
    (r : Resource) (xs ys : List Resource) → erase_one r xs ≡ some ys → is_held r xs ≡ true
unfolding erase_one is_held
erase_one-is_held r [] ys h = ground arith
erase_one-is_held r (x ∷ xs) ys h = elim (Option-cases (erase_one r xs)) [
  | inl missing ↦ ground arith
  | inr (zs, found) ↦ ground (arith, erase_one-is_held r xs zs found)
]

-- The same for a call that does nothing where the thing is not held.
pub erase_if_held_lem :
    (r : Resource) (xs ys : List Resource) → erase_one r xs ≡ some ys → erase_if_held r xs ≡ some ys
unfolding erase_if_held
erase_if_held_lem r xs ys h = ground (arith, erase_one-is_held r xs ys h)
