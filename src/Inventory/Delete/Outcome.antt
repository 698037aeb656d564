-- ===== src/Inventory/Delete/Outcome.antt =====
-- What `DeleteItemFromClient` does on each of its ways.
use tethealla.Base.{
  ℕ, ◌-◌, ◌<◌, ◌≡◌, refl, ap, ◌∙◌, Bool, true, false, some, inl, inr, arith, ltb, ◌==◌,
  if◌then◌else◌, length, length-set, Bool-cases, Option-cases, lt→ltb,
}
use tethealla.Item.{zero_inventory_item, byte, set_byte, stackable, at_least_one, is_worn_armor}
use tethealla.Game.{Client, Room, find_index, slot, set_slot, has_id}
use tethealla.Game.Find.{find_index-Found}
use tethealla.Inventory.CleanUp.{max_inventory, clean_up_inventory}
use tethealla.Inventory.CleanUp.Packed.{IsTidy, items, remove, clean_up_inventory_lem}
use tethealla.Inventory.Delete.{
  stripped, delete_slot, delete_from_stack, delete_whole, delete_found, delete_item,
}
use tethealla.Inventory.Delete.Content.{
  client_dropped, client-drop_whole, length-delete_slot, items-clean_up, clean_up-delete_slot,
}
use tethealla.Inventory.Delete.Stack.{ne_test}

todc-clean_up : (c : Client) → (clean_up_inventory c).todc ≡ c.todc
unfolding clean_up_inventory
todc-clean_up c = refl

todc-delete_slot : (ch : ℕ) (c : Client) → (delete_slot ch c).todc ≡ c.todc
unfolding delete_slot
todc-delete_slot ch c = elim (Bool-cases (is_worn_armor (slot c ch))) [
  | inl e ↦ rw e
  | inr e ↦ rw e
]

Size : Client → Type 0
Size c = length c.inventory ≡ max_inventory

Size-delete_from_stack :
    (ch count : ℕ) (drop : Bool) (r : Room)
    → IsTidy r.client
    → Size (delete_from_stack ch count drop r).client
unfolding Size delete_from_stack
Size-delete_from_stack ch count drop r v =
    let i = slot r.client ch in
    let n = at_least_one (byte i.item 5) in
    let i' = record i { item = set_byte i.item 5 (n - count) } in
    let written = record r { client = set_slot ch i' r.client } in
    let same = client_dropped drop count i'.item.data_bytes written in
    elim (Bool-cases (ltb n count)) [
      | inl short ↦ rw short v.size
      | inr fits ↦ rw fits (elim (Bool-cases (n - count == 0)) [
        | inl z ↦
            rw (z, same)
              (length-delete_slot ch written.client
                ∙ (length-set r.client.inventory ch i' ∙ v.size))
        | inr z ↦ rw (z, same) (length-set r.client.inventory ch i' ∙ v.size)
      ])
    ]

delete_whole_client :
    (ch : ℕ) (drop : Bool) (r : Room) → (delete_whole ch drop r).client ≡ delete_slot ch r.client
unfolding delete_whole
delete_whole_client ch true r = ap (delete_slot ch) (client-drop_whole (slot r.client ch).item r)
delete_whole_client ch false r = refl

Size-delete_whole :
    (ch : ℕ) (drop : Bool) (r : Room) → IsTidy r.client → Size (delete_whole ch drop r).client
unfolding Size
Size-delete_whole ch drop r v =
    rw (delete_whole_client ch drop r) (length-delete_slot ch r.client ∙ v.size)

if_either {ℓ} :
    {A : Type ℓ} (P : A → Type 0) (b : Bool) (x y : A) → P x → P y → P (if b then x else y)
if_either P true x y p q = p
if_either P false x y p q = q

IsTidy-delete_found :
    (ch count : ℕ) (drop : Bool) (r : Room)
    → IsTidy r.client
    → IsTidy (delete_found ch count drop r).client
unfolding delete_found Size
IsTidy-delete_found ch count drop r v =
    (clean_up_inventory_lem _ (
      if_either {A = Room} (λ r'. Size r'.client) _ _ _ (Size-delete_from_stack ch _ drop r v)
        (Size-delete_whole ch drop r v))).0

-- Whatever it is asked, `DeleteItemFromClient` keeps the inventory tidy: 30 slots, the items
-- first, and their number right.
pub delete_item-IsTidy :
    (itemid count : ℕ) (drop : Bool) (r : Room)
    → IsTidy r.client
    → IsTidy (delete_item itemid count drop r).client
unfolding delete_item
delete_item-IsTidy itemid count drop r v =
    elim (Option-cases (find_index (has_id itemid) r.client.inventory_use r.client.inventory)) [
      | inl e ↦ rw (e, delete_item) (record { size = v.size; packed = v.packed })
      | inr (ch, e) ↦ rw (e, delete_item) (IsTidy-delete_found ch count drop r v)
    ]

-- An item that does not stack, where a tidy inventory holds it: it is taken out, the others keep
-- their order, and where it is a worn armor what it holds is taken off; the client stays.
pub delete_item_whole :
    (itemid count ch : ℕ) (drop : Bool) (r : Room)
    → IsTidy r.client
    → find_index (has_id itemid) r.client.inventory_use r.client.inventory ≡ some ch
    → stackable (slot r.client ch).item.data_bytes ≡ 0
    → (items (delete_item itemid count drop r).client ≡ remove ch (items (stripped ch r.client)))
      × ((delete_item itemid count drop r).client.todc ≡ r.client.todc)
unfolding delete_item delete_found
delete_item_whole itemid count ch drop r v found single =
    let f = find_index-Found (has_id itemid) zero_inventory_item _ _ ch found in
    rw (found, delete_item, single, delete_whole_client ch drop r)
      (
        (clean_up-delete_slot ch r.client v f.below).1,
        todc-clean_up _ ∙ todc-delete_slot ch r.client,
      )

-- More units than a stack of a tidy inventory holds: the client is disconnected with a message, keeps its items,
-- and nothing comes to lie in the game.
pub delete_item_too_many :
    (itemid count ch : ℕ) (drop : Bool) (r : Room)
    → IsTidy r.client
    → find_index (has_id itemid) r.client.inventory_use r.client.inventory ≡ some ch
    → 0 < stackable (slot r.client ch).item.data_bytes
    → at_least_one (byte (slot r.client ch).item 5) < count
    → let r' = delete_item itemid count drop r in
      (items r'.client ≡ items r.client) × (r'.client.todc ≡ true) × (r'.lobby ≡ r.lobby)
unfolding delete_item delete_found delete_from_stack
delete_item_too_many itemid count ch drop r v found stacks short =
    let pos : 0 < count = omega arith in
    rw
      (
        found,
        delete_item,
        ne_test (stackable (slot r.client ch).item.data_bytes) stacks,
        ne_test count pos,
        ne_test count pos,
        lt→ltb (at_least_one (byte (slot r.client ch).item 5)) count short,
      )
      (
        (items-clean_up (record (r.client) { todc = true })
            (record { size = v.size; packed = v.packed })).1,
        todc-clean_up (record (r.client) { todc = true }),
        refl,
      )
