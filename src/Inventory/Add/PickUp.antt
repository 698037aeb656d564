-- ===== src/Inventory/Add/PickUp.antt =====
-- What `AddItemToClient` adds to the inventory.
use tethealla.Base.{
  ℕ, ◌+◌, ◌%◌, ◌≤◌, ◌<◌, ◌≡◌, refl, subst₂, List, Bool, true, false, not, ◌&&◌, ◌||◌, some, inl,
  inr, arith, ltb, ◌==◌, if◌then◌else◌, length, get_or, get_or-set_self, Bool-cases, ==_iff,
  Option-cases,
}
use tethealla.Item.{
  Item, InventoryItem, zero_inventory_item, byte, stackable, at_least_one, compare_item,
}
use tethealla.Game.{Client, Room, find_index, slot}
use tethealla.Game.Find.{find_index-Found}
use tethealla.Floor.{item_at, set_item}
use tethealla.Inventory.CleanUp.Packed.{IsTidy, items}
use tethealla.Inventory.Units.{units, total, units_self, compare_item-set}
use tethealla.Inventory.Delete.Stack.{ne_test}
use tethealla.Inventory.Add.{
  same_kind, give_item, stack_of, stack_onto, stack_item, linked_item, taken, pick_up_item,
  counted_item, add_found, add_item,
}
use tethealla.Inventory.Add.Slots.{
  IsShaped, stackable_bound, fresh, Adds, give_item-Adds, set_stack-Adds,
}

same_kind_eq :
    (d : List ℕ) (i : InventoryItem)
    → same_kind d i ≡ true
    → compare_item d ≡ compare_item i.item.data_bytes
same_kind_eq d i h = (==_iff (compare_item d) (compare_item i.item.data_bytes)).0 h

stack_onto-Adds :
    (limit count ch : ℕ) (r : Room)
    → IsTidy r.client
    → IsShaped r.client.inventory
    → limit ≤ 99
    → 0 < count
    → ch < r.client.inventory_use
    → Adds
        (compare_item (slot r.client ch).item.data_bytes)
        count
        r.client
        (stack_onto limit count ch r)
unfolding stack_onto
stack_onto-Adds limit count ch r v shaped small pos lt =
    elim (Bool-cases (ltb limit (stack_of r.client ch + count))) [
      | inl over ↦
          rw over (record { tidy = record { size = v.size; packed = v.packed }; sum = omega arith })
      | inr fits ↦
          let n = (stack_of r.client ch + count) % 256 in
          let whole : n ≡ stack_of r.client ch + count = ground arith in
          let (tidy, sum) = set_stack-Adds ch n count r.client v shaped lt (omega arith) whole in
          rw fits (record { tidy = tidy; sum = sum })
    ]

stack_item-Adds :
    (limit : ℕ) (i : Item) (r : Room)
    → IsTidy r.client
    → IsShaped r.client.inventory
    → limit ≤ 99
    → 0 < byte i 5
    → Adds (compare_item i.data_bytes) (byte i 5) r.client (stack_item limit i r)
unfolding stack_item
stack_item-Adds limit i r v shaped small pos =
    elim (Option-cases
      (find_index (same_kind i.data_bytes) r.client.inventory_use r.client.inventory)) [
        | inl e ↦ rw (e, stack_item) (record { tidy = v; sum = omega arith })
        | inr (ch, e) ↦
            let f = find_index-Found (same_kind i.data_bytes) zero_inventory_item _ _ ch e in
            rw (e, stack_item, same_kind_eq i.data_bytes (slot r.client ch) f.passes)
              (stack_onto-Adds limit (byte i 5) ch r v shaped small pos f.below)
      ]

-- Either it adds, or the client is to be disconnected.
abbrev AddsOrLeaves : ℕ → ℕ → Client → Room × Bool → Type 0
AddsOrLeaves kind n c out = Adds kind n c out × ((out.1 || out.0.client.todc) ≡ true)

give_after :
    (kind : ℕ) (i : Item) (c : Client) (r₁ : Room) (stacked todc : Bool) (n : ℕ)
    → r₁.client.todc ≡ todc
    → units kind (fresh i) ≡ n
    → Adds kind n c (r₁, stacked)
    → AddsOrLeaves kind n c (if not todc && not stacked then give_item i r₁ else (r₁, stacked))
give_after kind i c r₁ true true n t e a = (a, refl)
give_after kind i c r₁ true false n t e a = (a, refl)
give_after kind i c r₁ false true n t e a = (a, t)
give_after kind i c r₁ false false n t e a =
    let (given, leaves) = give_item-Adds kind i r₁ a.tidy in
    (record { tidy = given.tidy; sum = rw (given.sum, a.sum, e) (omega arith) }, leaves)

pick_up_item-Adds :
    (limit : ℕ) (i : Item) (r : Room)
    → IsTidy r.client
    → IsShaped r.client.inventory
    → 0 < limit
    → limit ≤ 99
    → 0 < byte i 5
    → AddsOrLeaves (compare_item i.data_bytes) (byte i 5) r.client (pick_up_item limit i r)
unfolding pick_up_item
pick_up_item-Adds limit i r v shaped low small pos = rw (ne_test limit low) (
    give_after (compare_item i.data_bytes) i r.client _ _ _ (byte i 5) refl
      (ground (arith, units_self (fresh i))) (stack_item-Adds limit i r v shaped small pos))

-- Marking an item of the game as counted does not touch its kind.
counted_item-kind :
    (limit : ℕ) (i : Item)
    → 5 < length i.data_bytes
    → 0 < limit
    → (compare_item (counted_item limit i).data_bytes ≡ compare_item i.data_bytes)
      × (byte (counted_item limit i) 5 ≡ at_least_one (byte i 5))
counted_item-kind limit i h low = elim (Bool-cases (byte i 5 == 0)) [
  | inl z ↦
      rw (ne_test limit low, z)
        (compare_item-set i.data_bytes 1, get_or-set_self i.data_bytes 5 1 0 h)
  | inr z ↦ rw (ne_test limit low, z) (refl, refl)
]

-- What is done once the item is found, but for the game's own list.
taken_either :
    (kind n : ℕ) (c : Client) (ch num : ℕ) (r' : Room) (added : Bool)
    → AddsOrLeaves kind n c (r', added)
    → AddsOrLeaves kind n c (if added then (taken ch num r', true) else (r', false))
unfolding taken
taken_either kind n c ch num r' true a = (record { tidy = a.0.tidy; sum = a.0.sum }, refl)
taken_either kind n c ch num r' false a = a

pub not_meseta : (d : List ℕ) → 0 < stackable d → (get_or d 0 0 == 4) ≡ false
unfolding stackable
not_meseta d h = ground arith

-- Picking up a stackable item of the game adds to a tidy inventory (of items with all their bytes)
-- exactly the units that the item
-- counts for, to a stack or to a slot, or adds nothing and disconnects the client; the inventory
-- stays tidy.
pub add_item-units :
    (itemid ch : ℕ) (r : Room)
    → IsTidy r.client
    → IsShaped r.client.inventory
    → find_index
        (λ num. (item_at r.lobby num).itemid == itemid)
        r.lobby.game_item_count
        r.lobby.game_item_list
      ≡ some ch
    → 0 < stackable (linked_item r ch).data_bytes
    → 5 < length (linked_item r ch).data_bytes
    → let i = linked_item r ch in
      let kind = compare_item i.data_bytes in
      let (r', added) = add_item itemid r in
      IsTidy r'.client
      × (total kind (items r'.client)
          ≡ total kind (items r.client) + (if added then at_least_one (byte i 5) else 0))
      × ((added || r'.client.todc) ≡ true)
unfolding add_item add_found
add_item-units itemid ch r v shaped found stacks bytes =
    let i = linked_item r ch in
    let limit = stackable i.data_bytes in
    let i' = counted_item limit i in
    let num = get_or r.lobby.game_item_list ch 0 in
    let r₁ = record r { lobby = set_item r.lobby num i' } in
    let (same, count) = counted_item-kind limit i bytes stacks in
    let some_count : 0 < byte i' 5 = ground (arith, count) in
    let picked =
      pick_up_item-Adds limit i' r₁ v shaped stacks (stackable_bound i.data_bytes) some_count in
    let a =
      taken_either (compare_item i.data_bytes) (at_least_one (byte i 5)) r.client ch num
        (pick_up_item limit i' r₁).0 (pick_up_item limit i' r₁).1
        (subst₂ (λ k n. AddsOrLeaves k n r.client (pick_up_item limit i' r₁)) same count picked) in
    rw (found, add_item, not_meseta i.data_bytes stacks) (a.0.tidy, a.0.sum, a.1)
