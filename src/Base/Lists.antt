-- ===== src/Base/Lists.antt =====
-- Lists measured and indexed by native numbers, under the library's names.
use Prim.Native.Nat.{ℕ, zero, suc, ◌+◌, ◌-◌, ◌≤◌, ◌<◌}
use mathlib.Core.Path.{◌≡◌, refl, ap, ◌∙◌}
use mathlib.Core.List.{List, [], ◌∷◌, ◌++◌}
use mathlib.Core.Option.{Option, none, some}
use linux_device_drivers.Base.Tests.{ltb, ◌==◌, if◌then◌else◌}
use native.Mathlib.Omega.{arith}

module _ {ℓ} {A : Type ℓ} where
  abbrev pub length : List A → ℕ
  length [] = 0
  length (x ∷ xs) = suc (length xs)

  abbrev pub get_elem? : List A → ℕ → Option A
  get_elem? [] i = none
  get_elem? (x ∷ xs) zero = some x
  get_elem? (x ∷ xs) (suc i) = get_elem? xs i

  abbrev pub take : ℕ → List A → List A
  take zero xs = []
  take (suc n) [] = []
  take (suc n) (x ∷ xs) = x ∷ take n xs

  abbrev pub drop : ℕ → List A → List A
  drop zero xs = xs
  drop (suc n) [] = []
  drop (suc n) (x ∷ xs) = drop n xs

  abbrev pub replicate : ℕ → A → List A
  replicate zero a = []
  replicate (suc n) a = a ∷ replicate n a

  abbrev pub get_or : List A → ℕ → A → A
  get_or [] i d = d
  get_or (x ∷ xs) zero d = x
  get_or (x ∷ xs) (suc i) d = get_or xs i d

  abbrev pub set : List A → ℕ → A → List A
  set [] i v = []
  set (x ∷ xs) zero v = v ∷ xs
  set (x ∷ xs) (suc i) v = x ∷ set xs i v

  -- A buffer after bytes have been written to its start. What does not fit is not written.
  abbrev pub overlay : List A → List A → List A
  overlay [] old = old
  overlay (x ∷ xs) [] = []
  overlay (x ∷ xs) (y ∷ old) = x ∷ overlay xs old

  -- The same from the index `i` on.
  abbrev pub overlay_at : ℕ → List A → List A → List A
  overlay_at zero xs old = overlay xs old
  overlay_at (suc i) xs [] = []
  overlay_at (suc i) xs (y ∷ old) = y ∷ overlay_at i xs old

module _ {ℓ} {A : Type ℓ} where
  pub length-overlay : (xs ys : List A) → length (overlay xs ys) ≡ length ys
  length-overlay [] ys = refl
  length-overlay (x ∷ xs) [] = refl
  length-overlay (x ∷ xs) (y ∷ ys) = omega (arith, length-overlay xs ys)

  pub length-overlay_at : (i : ℕ) (xs ys : List A) → length (overlay_at i xs ys) ≡ length ys
  length-overlay_at zero xs ys = length-overlay xs ys
  length-overlay_at (suc i) xs [] = refl
  length-overlay_at (suc i) xs (y ∷ ys) = ap suc (length-overlay_at i xs ys)

  pub overlay_full : (xs ys : List A) → length xs ≡ length ys → overlay xs ys ≡ xs
  overlay_full [] [] h = refl
  overlay_full [] (y ∷ ys) h = absurd (omega arith)
  overlay_full (x ∷ xs) [] h = absurd (omega arith)
  overlay_full (x ∷ xs) (y ∷ ys) h = ap (◌∷◌ x) (overlay_full xs ys (omega arith))

  pub length-replicate : (n : ℕ) (a : A) → length (replicate n a) ≡ n
  length-replicate zero a = refl
  length-replicate (suc n) a = omega (arith, length-replicate n a)

  pub length-take_of_le : (n : ℕ) (xs : List A) → n ≤ length xs → length (take n xs) ≡ n
  length-take_of_le zero xs h = refl
  length-take_of_le (suc n) [] h = absurd (omega arith)
  length-take_of_le (suc n) (x ∷ xs) h = omega (arith, length-take_of_le n xs)

  pub length-set : (xs : List A) (i : ℕ) (v : A) → length (set xs i v) ≡ length xs
  length-set [] i v = refl
  length-set (x ∷ xs) zero v = refl
  length-set (x ∷ xs) (suc i) v = ap suc (length-set xs i v)

  pub get_or-set :
      (xs : List A) (i j : ℕ) (v d : A)
      → i < length xs
      → get_or (set xs i v) j d ≡ (if j == i then v else get_or xs j d)
  get_or-set [] i j v d h = absurd (omega arith)
  get_or-set (x ∷ xs) zero zero v d h = refl
  get_or-set (x ∷ xs) zero (suc j) v d h = ground arith
  get_or-set (x ∷ xs) (suc i) zero v d h = ground arith
  get_or-set (x ∷ xs) (suc i) (suc j) v d h = ground (arith, get_or-set xs i j v d)

  pub get_or-overlay :
      (xs ys : List A) (j : ℕ) (d : A)
      → length xs ≤ length ys
      → get_or (overlay xs ys) j d ≡ (if ltb j (length xs) then get_or xs j d else get_or ys j d)
  get_or-overlay [] ys j d h = ground arith
  get_or-overlay (x ∷ xs) [] j d h = absurd (omega arith)
  get_or-overlay (x ∷ xs) (y ∷ ys) zero d h = ground arith
  get_or-overlay (x ∷ xs) (y ∷ ys) (suc j) d h = ground (arith, get_or-overlay xs ys j d)

  pub length-take_le : (n : ℕ) (xs : List A) → length (take n xs) ≤ n
  length-take_le zero xs = omega arith
  length-take_le (suc n) [] = omega arith
  length-take_le (suc n) (x ∷ xs) = omega (arith, length-take_le n xs)

  pub overlay_at-append :
      (xs ys zs : List A) (i : ℕ) → length ys ≡ i → overlay_at i xs (ys ++ zs) ≡ ys ++ overlay xs zs
  overlay_at-append xs [] zs i h = ground arith
  overlay_at-append xs (y ∷ ys) zs zero h = absurd (omega arith)
  overlay_at-append xs (y ∷ ys) zs (suc i) h =
      ap (◌∷◌ y) (overlay_at-append xs ys zs i (omega arith))

  pub overlay-eq-append :
      (xs ys : List A) → length xs ≤ length ys → overlay xs ys ≡ xs ++ drop (length xs) ys
  overlay-eq-append [] ys h = refl
  overlay-eq-append (x ∷ xs) [] h = absurd (omega arith)
  overlay-eq-append (x ∷ xs) (y ∷ ys) h = ap (◌∷◌ x) (overlay-eq-append xs ys (omega arith))

  -- The same where what is written stands behind `ys`, and covers the start of `zs`.
  pub overlay_at-eq-append :
      (xs ys zs : List A) (i : ℕ)
      → length ys ≡ i
      → length xs ≤ length zs
      → overlay_at i xs (ys ++ zs) ≡ ys ++ (xs ++ drop (length xs) zs)
  overlay_at-eq-append xs ys zs i h k =
      overlay_at-append xs ys zs i h ∙ ap (◌++◌ ys) (overlay-eq-append xs zs k)

  pub length-drop : (n : ℕ) (xs : List A) → length (drop n xs) ≡ length xs - n
  length-drop zero xs = omega arith
  length-drop (suc n) [] = omega arith
  length-drop (suc n) (x ∷ xs) = omega (arith, length-drop n xs)

  pub length-append : (xs ys : List A) → length (xs ++ ys) ≡ length xs + length ys
  length-append [] ys = omega arith
  length-append (x ∷ xs) ys = omega (arith, length-append xs ys)

  drop_nil : (n : ℕ) → drop {A = A} n [] ≡ []
  drop_nil zero = refl
  drop_nil (suc n) = refl

  pub drop-drop : (m n : ℕ) (xs : List A) → drop m (drop n xs) ≡ drop (n + m) xs
  drop-drop m zero xs = ground arith
  drop-drop m (suc n) [] = ground (arith, drop_nil m, drop_nil (suc n + m))
  drop-drop m (suc n) (x ∷ xs) =
      let e : suc n + m ≡ suc (n + m) = omega arith in rw e (drop-drop m n xs)

  -- Two lists agree on a stretch where their items do.
  pub take-ext :
      (d : A) (k : ℕ) (xs ys : List A)
      → k ≤ length xs
      → k ≤ length ys
      → ((j : ℕ) → j < k → get_or xs j d ≡ get_or ys j d)
      → take k xs ≡ take k ys
  take-ext d zero xs ys h h' f = refl
  take-ext d (suc k) [] ys h h' f = absurd (omega arith)
  take-ext d (suc k) (x ∷ xs) [] h h' f = absurd (omega arith)
  take-ext d (suc k) (x ∷ xs) (y ∷ ys) h h' f =
      let e : x ≡ y = f 0 (omega arith) in
      let rest = take-ext d k xs ys (omega arith) (omega arith) (λ j l. f (suc j) (omega arith)) in
      cc

  pub slice-ext :
      (d : A) (k m : ℕ) (xs ys : List A)
      → m + k ≤ length xs
      → m + k ≤ length ys
      → ((j : ℕ) → m ≤ j → j < m + k → get_or xs j d ≡ get_or ys j d)
      → take k (drop m xs) ≡ take k (drop m ys)
  slice-ext d k zero xs ys h h' f =
      take-ext d k xs ys (omega arith) (omega arith) (λ j l. f j (omega arith) (omega arith))
  slice-ext d k (suc m) [] ys h h' f = absurd (omega arith)
  slice-ext d k (suc m) (x ∷ xs) [] h h' f = absurd (omega arith)
  slice-ext d k (suc m) (x ∷ xs) (y ∷ ys) h h' f =
      slice-ext d k m xs ys (omega arith) (omega arith)
        (λ j l l'. f (suc j) (omega arith) (omega arith))
