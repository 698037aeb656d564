-- ===== src/Inventory/Units.antt =====
-- How many units of a kind of item a list of inventory items holds.
use tethealla.Base.{
  ℕ, zero, suc, ◌+◌, ◌<◌, ◌≡◌, refl, List, [], ◌∷◌, ◌++◌, arith, ◌==◌, if◌then◌else◌, length, take,
  set, get_or, get_or-set_ne, get_or-set_self,
}
use tethealla.Item.{InventoryItem, compare_item, at_least_one, byte, set_byte}
use tethealla.Inventory.CleanUp.Packed.{remove}

-- The units that an item counts for, if its first three bytes are `kind`.
abbrev pub units : ℕ → InventoryItem → ℕ
units kind i = if compare_item i.item.data_bytes == kind then at_least_one (byte i.item 5) else 0

pub total : ℕ → List InventoryItem → ℕ
total kind [] = 0
total kind (i ∷ slots) = units kind i + total kind slots

pub total-one : (kind : ℕ) (i : InventoryItem) → total kind (i ∷ []) ≡ units kind i
unfolding total
total-one kind i = omega arith

pub total-set :
    (kind : ℕ) (xs : List InventoryItem) (i : ℕ) (v d : InventoryItem)
    → i < length xs
    → total kind (set xs i v) + units kind (get_or xs i d) ≡ total kind xs + units kind v
unfolding total
total-set kind [] i v d h = absurd (omega arith)
total-set kind (x ∷ xs) zero v d h = omega arith
total-set kind (x ∷ xs) (suc i) v d h = omega (arith, total-set kind xs i v d (omega arith))

pub total-remove :
    (kind : ℕ) (xs : List InventoryItem) (i : ℕ) (d : InventoryItem)
    → i < length xs
    → total kind (remove i xs) + units kind (get_or xs i d) ≡ total kind xs
unfolding total
total-remove kind [] i d h = absurd (omega arith)
total-remove kind (x ∷ xs) zero d h = omega arith
total-remove kind (x ∷ xs) (suc i) d h = omega (arith, total-remove kind xs i d (omega arith))

pub total-append :
    (kind : ℕ) (xs ys : List InventoryItem) → total kind (xs ++ ys) ≡ total kind xs + total kind ys
unfolding total
total-append kind [] ys = omega arith
total-append kind (x ∷ xs) ys = omega (arith, total-append kind xs ys)

pub get_or-take {ℓ} :
    {A : Type ℓ} (n : ℕ) (xs : List A) (i : ℕ) (d : A)
    → i < n
    → get_or (take n xs) i d ≡ get_or xs i d
get_or-take zero xs i d h = absurd (omega arith)
get_or-take (suc n) [] i d h = refl
get_or-take (suc n) (x ∷ xs) zero d h = refl
get_or-take (suc n) (x ∷ xs) (suc i) d h = get_or-take n xs i d (omega arith)

-- A write of the stack count leaves the kind of the item.
pub compare_item-set : (d : List ℕ) (v : ℕ) → compare_item (set d 5 v) ≡ compare_item d
compare_item-set d v = omega (
  arith,
  get_or-set_ne d 5 0 v 0 (omega arith),
  get_or-set_ne d 5 1 v 0 (omega arith),
  get_or-set_ne d 5 2 v 0 (omega arith),
)

-- The units of an item are those that its stack count says.
pub units_stack :
    (i : InventoryItem) (v : ℕ)
    → 5 < length i.item.data_bytes
    → 0 < v
    → units (compare_item i.item.data_bytes) (record i { item = set_byte i.item 5 v }) ≡ v
units_stack i v h p =
    ground (arith, compare_item-set i.item.data_bytes v, get_or-set_self i.item.data_bytes 5 v 0 h)

pub units_self :
    (i : InventoryItem) → units (compare_item i.item.data_bytes) i ≡ at_least_one (byte i.item 5)
units_self i = ground arith
