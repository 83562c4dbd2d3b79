-- ===== src/Machine/Resources.antt =====
-- What a log of calls holds: the specification that the drivers and programs are measured by. A
-- call acquires a resource, gives some back, or does neither, as its documentation says.
pub mod Order
pub mod Tally
pub mod Bag
use linux_device_drivers.Base.{
  ℕ, Bool, true, false, ◌&&◌, ◌||◌, Option, none, some, List, [], ◌∷◌, if◌then◌else◌, ◌==◌,
}
use linux_device_drivers.Machine.{Reply, Event, Log}

-- The kinds of thing that a kernel or a library hands out.
pub data Kind : Type 0 where
  region cdev_object cdev_added dev_class device bus_driver net_device : Kind
  skb memory descriptor netlink_socket netlink_cache netlink_message : Kind

abbrev pub code_of : Kind → ℕ
code_of region = 0
code_of cdev_object = 1
code_of cdev_added = 2
code_of dev_class = 3
code_of device = 4
code_of bus_driver = 5
code_of net_device = 6
code_of skb = 7
code_of memory = 8
code_of descriptor = 9
code_of netlink_socket = 10
code_of netlink_cache = 11
code_of netlink_message = 12

-- A device number, an address or a descriptor tells the things of one kind apart.
pub record Resource : Type 0 where
  pub kind : Kind
  pub id : ℕ

abbrev pub resource : Kind → ℕ → Resource
resource k n = record { kind = k; id = n }

unfoldable pub same : Resource → Resource → Bool
same r x = code_of r.kind == code_of x.kind && r.id == x.id

pub data Effect : Type 0 where
  neutral : Effect
  acquire : Resource → Effect
  release : List Resource → Effect
  release_if_held : Resource → Effect

-- What each call of a kind `C` does to the resources, given its reply.
pub record Tracked (C : Type 0) : Type 0 where
  pub effect : C → Reply → Effect

abbrev pub on_some : {A B : Type 0} → Option A → (A → Option B) → Option B
on_some none k = none
on_some (some a) k = k a

-- Give back the newest resources, in this order: `none` if another one is newer, or none is held.
unfoldable pub pop_all : List Resource → List Resource → Option (List Resource)
unfolding same
pop_all [] held = some held
pop_all (r ∷ rs) [] = none
pop_all (r ∷ rs) (x ∷ held) = let rest = pop_all rs held in if same r x then rest else none

-- Give back one resource, wherever it stands: `none` if it is not held.
unfoldable pub erase_one : Resource → List Resource → Option (List Resource)
unfolding same
erase_one r [] = none
erase_one r (x ∷ held) =
    let rest = erase_one r held in if same r x then some held else on_some rest (λ t. some (x ∷ t))

unfoldable pub erase_all : List Resource → List Resource → Option (List Resource)
unfolding erase_one
erase_all [] held = some held
erase_all (r ∷ rs) held = on_some (erase_one r held) (erase_all rs)

unfoldable pub is_held : Resource → List Resource → Bool
unfolding same
is_held r [] = false
is_held r (x ∷ held) = same r x || is_held r held

-- The same for a call that does nothing where the resource is not held.
unfoldable pub pop_if_held : Resource → List Resource → Option (List Resource)
unfolding is_held
pop_if_held r [] = some []
pop_if_held r (x ∷ held) =
    if same r x then some held else if is_held r held then none else some (x ∷ held)

unfoldable pub erase_if_held : Resource → List Resource → Option (List Resource)
unfolding erase_one is_held
erase_if_held r held = if is_held r held then erase_one r held else some held

unfoldable pub apply_nested : Effect → List Resource → Option (List Resource)
unfolding pop_all pop_if_held
apply_nested neutral held = some held
apply_nested (acquire r) held = some (r ∷ held)
apply_nested (release rs) held = pop_all rs held
apply_nested (release_if_held r) held = pop_if_held r held

unfoldable pub apply_any : Effect → List Resource → Option (List Resource)
unfolding erase_all erase_if_held
apply_any neutral held = some held
apply_any (acquire r) held = some (r ∷ held)
apply_any (release rs) held = erase_all rs held
apply_any (release_if_held r) held = erase_if_held r held

module _ {C : Type 0} ⦃t : Tracked C⦄ where
  -- What is held after the calls of a log, newest first; `none` once a call gave back something
  -- that was not the newest thing held.
  unfoldable pub nested : Log C → Option (List Resource)
  unfolding apply_nested
  nested [] = some []
  nested (e ∷ l) = on_some (nested l) (apply_nested (t.effect e.call e.reply))

  -- The same in any order; `none` once a call gave back something that was not held.
  unfoldable pub held : Log C → Option (List Resource)
  unfolding apply_any
  held [] = some []
  held (e ∷ l) = on_some (held l) (apply_any (t.effect e.call e.reply))
