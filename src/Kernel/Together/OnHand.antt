-- ===== src/Kernel/Together/OnHand.antt =====
-- What a log has left on hand, as an equation of bags.
use mathlib.Core.Quot
use mathlib.Core.Option.{some-injective}
use linux_device_drivers.Base.{◌≡◌, ◌∙◌, ap, refl, Option, none, some, List}
use linux_device_drivers.Machine.{Log}
use linux_device_drivers.Machine.Resources.{Resource, held}
use linux_device_drivers.Machine.Resources.Bag.{Alike, of_list, bag_of, on_hand, exact}
use linux_device_drivers.Kernel.{Call, kernel_tracked}
use linux_device_drivers.Kernel.Together.{HoldsLike}

pub HoldsLike-on_hand :
    (rest : List Resource) (l : Log Call) → HoldsLike rest l → on_hand l ≡ some (of_list rest)
HoldsLike-on_hand rest l (things, all, alike) = ap bag_of all ∙ ap some (Quot.sound alike)

things_of :
    (rest : List Resource) (o : Option (List Resource))
    → bag_of o ≡ some (of_list rest)
    → (things : List Resource) × (o ≡ some things) × Alike things rest
things_of rest none h = cc
things_of rest (some things) h = (things, refl, exact (some-injective _ _ h))

pub on_hand-HoldsLike :
    (rest : List Resource) (l : Log Call) → on_hand l ≡ some (of_list rest) → HoldsLike rest l
on_hand-HoldsLike rest l h = things_of rest (held l) h
