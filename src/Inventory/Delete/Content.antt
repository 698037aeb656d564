-- ===== src/Inventory/Delete/Content.antt =====
-- What `DeleteItemFromClient` leaves in the inventory.
use tethealla.Base.{
  ℕ, zero, suc, ◌<◌, ◌≡◌, refl, ap, ◌∙◌, List, [], ◌∷◌, Bool, true, false, inl, inr, arith,
  if◌then◌else◌, length, set, get_or, length-set, get_or-set_ne, Bool-cases,
}
use tethealla.Item.{InventoryItem, set_byte, stackable, unequip, is_worn_armor, Item}
use tethealla.Game.{Client, Room, map_first, slot, set_slot}
use tethealla.Floor.{free_game_item}
use tethealla.Inventory.CleanUp.{clean_up_inventory}
use tethealla.Inventory.CleanUp.Packed.{
  IsPacked, IsTidy, items, remove, clean_up_inventory_lem, kept_of_IsPacked, kept-set_unused,
  set-IsPacked, take-set,
}
use tethealla.Inventory.Delete.{drop_part, drop_whole, stripped, delete_slot}

-- The floor functions leave the client alone.
pub client-free_game_item : (r : Room) → (free_game_item r).0.client ≡ r.client
unfolding free_game_item
client-free_game_item r = ground arith

client-drop_part : (count : ℕ) (d : List ℕ) (r : Room) → (drop_part count d r).client ≡ r.client
unfolding drop_part
client-drop_part count d r = client-free_game_item _

pub client-drop_whole : (i : Item) (r : Room) → (drop_whole i r).client ≡ r.client
unfolding drop_whole
client-drop_whole i r = client-free_game_item r

length-map_first {ℓ} :
    {A : Type ℓ} (f : A → A) (n : ℕ) (xs : List A) → length (map_first f n xs) ≡ length xs
unfolding map_first
length-map_first f zero xs = refl
length-map_first f (suc n) [] = refl
length-map_first f (suc n) (x ∷ xs) = ap suc (length-map_first f n xs)

in_use-unequip : (i : InventoryItem) → (unequip i).in_use ≡ i.in_use
unfolding unequip
in_use-unequip i = ground arith

map_first-IsPacked :
    (n k : ℕ) (xs : List InventoryItem) → IsPacked n xs → IsPacked n (map_first unequip k xs)
unfolding map_first
map_first-IsPacked n zero xs h = h
map_first-IsPacked n (suc k) [] h = h
map_first-IsPacked zero (suc k) (x ∷ xs) h = (in_use-unequip x ∙ h.0, map_first-IsPacked 0 k xs h.1)
map_first-IsPacked (suc n) (suc k) (x ∷ xs) h =
    (omega (arith, in_use-unequip x, h.0), map_first-IsPacked n k xs h.1)

stripped-IsTidy : (ch : ℕ) (c : Client) → IsTidy c → IsTidy (stripped ch c)
stripped-IsTidy ch c v = elim (Bool-cases (is_worn_armor (slot c ch))) [
  | inl e ↦ rw e (record {
    size = length-map_first unequip c.inventory_use c.inventory ∙ v.size;
    packed = map_first-IsPacked c.inventory_use c.inventory_use c.inventory v.packed;
  })
  | inr e ↦ rw e v
]

inventory_use-stripped : (ch : ℕ) (c : Client) → (stripped ch c).inventory_use ≡ c.inventory_use
inventory_use-stripped ch c = ground arith

-- Deleting a slot and cleaning up takes the item out of the (stripped) inventory.
pub clean_up-delete_slot :
    (ch : ℕ) (c : Client)
    → IsTidy c
    → ch < c.inventory_use
    → let c' = clean_up_inventory (delete_slot ch c) in
      IsTidy c' × (items c' ≡ remove ch (items (stripped ch c)))
unfolding delete_slot
clean_up-delete_slot ch c v lt =
    let c' = stripped ch c in
    let v' : IsTidy c' = stripped-IsTidy ch c v in
    let (tidy, content, _) =
      clean_up_inventory_lem (delete_slot ch c) (length-set c'.inventory ch _ ∙ v'.size) in
    (
      tidy,
      content
          ∙ kept-set_unused c'.inventory_use c'.inventory ch _ v'.packed
              (omega (arith, inventory_use-stripped ch c, lt)) refl,
    )

pub client_dropped :
    (drop : Bool) (count : ℕ) (d : List ℕ) (r : Room)
    → (if drop then drop_part count d r else r).client ≡ r.client
client_dropped true count d r = client-drop_part count d r
client_dropped false count d r = refl

length-stripped : (ch : ℕ) (c : Client) → length (stripped ch c).inventory ≡ length c.inventory
length-stripped ch c = elim (Bool-cases (is_worn_armor (slot c ch))) [
  | inl e ↦ rw e (length-map_first unequip c.inventory_use c.inventory)
  | inr e ↦ rw e
]

pub length-delete_slot :
    (ch : ℕ) (c : Client) → length (delete_slot ch c).inventory ≡ length c.inventory
unfolding delete_slot
length-delete_slot ch c = length-set (stripped ch c).inventory ch _ ∙ length-stripped ch c

pub in_use_of_IsPacked :
    (n : ℕ) (xs : List InventoryItem) (i : ℕ) (d : InventoryItem)
    → IsPacked n xs
    → i < n
    → 0 < (get_or xs i d).in_use
in_use_of_IsPacked zero xs i d h lt = absurd (omega arith)
in_use_of_IsPacked (suc n) [] i d h lt = absurd h
in_use_of_IsPacked (suc n) (x ∷ xs) zero d h lt = h.0
in_use_of_IsPacked (suc n) (x ∷ xs) (suc i) d h lt = in_use_of_IsPacked n xs i d h.1 (omega arith)

pub remove-set {ℓ} :
    {A : Type ℓ} (xs : List A) (i : ℕ) (v : A) → remove i (set xs i v) ≡ remove i xs
remove-set [] i v = refl
remove-set (x ∷ xs) zero v = refl
remove-set (x ∷ xs) (suc i) v = ap (λ r. x ∷ r) (remove-set xs i v)

-- A slot in use that is written with an item in use.
pub set_slot-IsTidy :
    (ch : ℕ) (i : InventoryItem) (c : Client)
    → IsTidy c
    → ch < c.inventory_use
    → 0 < i.in_use
    → IsTidy (set_slot ch i c) × (items (set_slot ch i c) ≡ set (items c) ch i)
set_slot-IsTidy ch i c v lt u = (
  record {
    size = length-set c.inventory ch i ∙ v.size;
    packed = set-IsPacked c.inventory_use c.inventory ch i v.packed lt u;
  },
  take-set c.inventory_use c.inventory ch i lt,
)

-- On a tidy inventory `CleanUpInventory` leaves the items as they are.
pub items-clean_up :
    (c : Client)
    → IsTidy c
    → IsTidy (clean_up_inventory c) × (items (clean_up_inventory c) ≡ items c)
items-clean_up c v =
    let (tidy, content, _) = clean_up_inventory_lem c v.size in
    (tidy, content ∙ kept_of_IsPacked c.inventory_use c.inventory v.packed)

-- A stackable item is no armor, also with another stack count.
pub stack_not_armor :
    (i : InventoryItem) (v : ℕ)
    → 0 < stackable i.item.data_bytes
    → is_worn_armor (record i { item = set_byte i.item 5 v }) ≡ false
unfolding stackable is_worn_armor
stack_not_armor i v h = ground (arith, get_or-set_ne i.item.data_bytes 5 0 v 0 (omega arith))
