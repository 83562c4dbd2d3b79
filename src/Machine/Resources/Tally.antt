-- ===== src/Machine/Resources/Tally.antt =====
-- How many things of a kind are held, whatever their order.
use linux_device_drivers.Base.{
  ℕ, suc, ◌<◌, ◌≡◌, true, false, some, List, [], ◌∷◌, ◌==◌, arith, if◌then◌else◌, Bool-cases, inl,
  inr,
}
use linux_device_drivers.Machine.Resources.{Kind, code_of, Resource, same, erase_one}

abbrev pub tally : Kind → List Resource → ℕ
tally k [] = 0
tally k (x ∷ xs) = if code_of x.kind == code_of k then suc (tally k xs) else tally k xs

-- How often one thing is held.
unfoldable pub count : Resource → List Resource → ℕ
unfolding same
count r [] = 0
count r (x ∷ xs) = if same r x then suc (count r xs) else count r xs

-- What giving back one thing does to the list of what is held.
pub record Erased (r : Resource) (xs ys : List Resource) : Type 0 where
  pub erased : erase_one r xs ≡ some ys
  pub one_less : suc (count r ys) ≡ count r xs
  pub others : (k : Kind) → (code_of r.kind == code_of k) ≡ false → tally k ys ≡ tally k xs

Erased-here : (r x : Resource) (xs : List Resource) → same r x ≡ true → Erased r (x ∷ xs) xs
unfolding erase_one count
Erased-here r x xs e = record {
  erased = ground arith;
  one_less = ground arith;
  others = λ k d. ground arith;
}

Erased-there :
    (r x : Resource) (xs ys : List Resource)
    → same r x ≡ false
    → Erased r xs ys
    → Erased r (x ∷ xs) (x ∷ ys)
unfolding erase_one count
Erased-there r x xs ys e h = record {
  erased = ground (arith, h.erased);
  one_less = ground (arith, h.one_less);
  others = λ k d. ground (arith, h.others k d);
}

-- A thing that is held can be given back, and then one less of it is held.
pub erase_one-Erased :
    (r : Resource) (xs : List Resource) → 0 < count r xs → (ys : List Resource) × Erased r xs ys
unfolding count
erase_one-Erased r [] h = absurd (omega arith)
erase_one-Erased r (x ∷ xs) h = elim (Bool-cases (same r x)) [
  | inl e ↦ (xs, Erased-here r x xs e)
  | inr e ↦
      let (ys, h') = erase_one-Erased r xs (ground arith) in (x ∷ ys, Erased-there r x xs ys e h')
]
