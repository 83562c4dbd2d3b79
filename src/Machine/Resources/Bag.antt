-- ===== src/Machine/Resources/Bag.antt =====
-- What is held, with its order forgotten: lists of resources up to order, as a quotient.
use mathlib.Core.Quot
use mathlib.Core.Quot.{Quot, Quot-set}
use linux_device_drivers.Base.{ℕ, ◌+◌, ◌≡◌, ap, arith, Option, none, some, List, [], ◌∷◌, ◌++◌}
use linux_device_drivers.Machine.{Log}
use linux_device_drivers.Machine.Resources.{Resource, Tracked, held}
use linux_device_drivers.Machine.Resources.Tally.{count}

-- The same things, each as often, in any order.
abbrev pub Alike : List Resource → List Resource → Type 0
Alike xs ys = (x : Resource) → count x xs ≡ count x ys

pub count-append :
    (x : Resource) (xs ys : List Resource) → count x (xs ++ ys) ≡ count x xs + count x ys
unfolding count
count-append x [] ys = ground arith
count-append x (r ∷ xs) ys = ground (arith, count-append x xs ys)

abbrev pub Bag : Type 0
Bag = Quot Alike

abbrev pub of_list : List Resource → Bag
of_list = Quot.mk

-- How often a thing is in a bag.
unfoldable copies : Resource → Bag → ℕ
copies x = Quot.lift (hlevel) (count x) λ xs ys h. h x

-- Equal bags hold the same things.
pub exact : {xs ys : List Resource} → of_list xs ≡ of_list ys → Alike xs ys
unfolding copies
exact e x = ap (copies x) e

abbrev pub bag_of : Option (List Resource) → Option Bag
bag_of none = none
bag_of (some things) = some (of_list things)

-- What the calls of a log have left on hand; `none` once a call gave back a thing that was not held.
abbrev pub on_hand : {C : Type 0} ⦃t : Tracked C⦄ → Log C → Option Bag
on_hand l = bag_of (held l)
