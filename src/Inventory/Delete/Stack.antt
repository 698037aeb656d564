-- ===== src/Inventory/Delete/Stack.antt =====
-- `DeleteItemFromClient` on a stack: how many units go, and what happens to the slot.
use tethealla.Base.{
  ℕ, ◌+◌, ◌-◌, ◌≤◌, ◌<◌, ◌≡◌, ap, ◌∙◌, Bool, false, some, inl, inr, arith, ◌==◌, if◌then◌else◌,
  length, set, get_or, length-take, get_or-set_self, Bool-cases, ==_iff, le→ltb,
}
use tethealla.Item.{
  InventoryItem, zero_inventory_item, byte, set_byte, stackable, at_least_one, compare_item,
}
use tethealla.Game.{Client, Room, find_index, slot, set_slot, has_id}
use tethealla.Game.Find.{find_index-Found}
use tethealla.Inventory.CleanUp.{clean_up_inventory}
use tethealla.Inventory.CleanUp.Packed.{IsTidy, items, remove, IsPacked-le}
use tethealla.Inventory.Units.{
  units, total, total-set, total-remove, get_or-take, units_stack, units_self,
}
use tethealla.Inventory.Delete.{stripped, delete_slot, delete_from_stack, delete_found, delete_item}
use tethealla.Inventory.Delete.Content.{
  client_dropped, in_use_of_IsPacked, remove-set, stack_not_armor, set_slot-IsTidy, items-clean_up,
  clean_up-delete_slot,
}

pub ne_test : (n : ℕ) → 0 < n → (n == 0) ≡ false
ne_test n h = ground arith

-- The branch for a stack that holds enough: the slot keeps what is left, or goes.
module _ (ch count : ℕ) (drop : Bool) (r : Room) (v : IsTidy r.client)
    (lt : ch < r.client.inventory_use)
    (enough : count ≤ at_least_one (byte (slot r.client ch).item 5)) where
  abbrev pub i : InventoryItem
  i = slot r.client ch

  abbrev pub left : ℕ
  left = at_least_one (byte i.item 5) - count

  abbrev pub i' : InventoryItem
  i' = record i { item = set_byte i.item 5 left }

  abbrev pub written : Room
  written = record r { client = set_slot ch i' r.client }

  written-IsTidy : IsTidy written.client × (items written.client ≡ set (items r.client) ch i')
  written-IsTidy = set_slot-IsTidy ch i' r.client v lt (
      in_use_of_IsPacked r.client.inventory_use r.client.inventory ch zero_inventory_item v.packed
        lt)

  pub client-delete_from_stack :
      (delete_from_stack ch count drop r).client
      ≡ (if left == 0 then delete_slot ch written.client else written.client)
  unfolding delete_from_stack
  client-delete_from_stack =
      rw (le→ltb (at_least_one (byte i.item 5)) count enough)
        (ends _ (client_dropped drop count i'.item.data_bytes written))
    where
      ends :
          (r₂ : Room)
          → r₂.client ≡ written.client
          → (if left == 0 then record r₂ { client = delete_slot ch r₂.client } else r₂).client
            ≡ (if left == 0 then delete_slot ch written.client else written.client)
      ends r₂ e = elim (Bool-cases (left == 0)) [ inl z ↦ rw (z, e) | inr z ↦ rw (z, e) ]

  -- What is left of the inventory once it is cleaned up.
  abbrev pub after : Client
  after = clean_up_inventory (delete_from_stack ch count drop r).client

  module _ (stacks : 0 < stackable i.item.data_bytes) where
    written_whole : items (stripped ch written.client) ≡ set (items r.client) ch i'
    written_whole =
        rw
          (
            get_or-set_self r.client.inventory ch i' zero_inventory_item
                (omega (arith, lt, IsPacked-le r.client.inventory_use r.client.inventory v.packed)),
            stack_not_armor i left stacks,
          )
          written-IsTidy.1

    after_gone : left ≡ 0 → IsTidy after × (items after ≡ remove ch (items r.client))
    after_gone e = rw client-delete_from_stack (
        rw ((==_iff left 0).1 e) (
          let (tidy, content) = clean_up-delete_slot ch written.client written-IsTidy.0 lt in
          (tidy, content ∙ (ap (remove ch) written_whole ∙ remove-set (items r.client) ch i'))))

    after_kept : 0 < left → IsTidy after × (items after ≡ set (items r.client) ch i')
    after_kept p = rw client-delete_from_stack (
        rw (ne_test left p) (
          let (tidy, content) = items-clean_up written.client written-IsTidy.0 in
          (tidy, content ∙ written-IsTidy.1)))

-- The branch that takes the count from the stack, then the cleaning up, take that many units of
-- the kind of item away, and no others.
module _ (ch count : ℕ) (drop : Bool) (r : Room) (v : IsTidy r.client)
    (lt : ch < r.client.inventory_use)
    (enough : count ≤ at_least_one (byte (slot r.client ch).item 5))
    (stacks : 0 < stackable (slot r.client ch).item.data_bytes)
    (bytes : 5 < length (slot r.client ch).item.data_bytes) where
  abbrev pub kind : ℕ
  kind = compare_item (slot r.client ch).item.data_bytes

  abbrev pub c' : Client
  c' = after ch count drop r v lt enough

  inside : ch < length (items r.client)
  inside = omega (
    arith,
    lt,
    length-take r.client.inventory_use r.client.inventory,
    IsPacked-le r.client.inventory_use r.client.inventory v.packed,
  )

  held : get_or (items r.client) ch zero_inventory_item ≡ slot r.client ch
  held = get_or-take r.client.inventory_use r.client.inventory ch zero_inventory_item lt

  units_held :
      units kind (get_or (items r.client) ch zero_inventory_item)
      ≡ at_least_one (byte (slot r.client ch).item 5)
  units_held = rw held (units_self (slot r.client ch))

  pub total-after : IsTidy c' × (total kind (items c') + count ≡ total kind (items r.client))
  total-after = elim (Bool-cases (left ch count drop r v lt enough == 0)) [
    | inl z ↦
        let (tidy, content) = after_gone ch count drop r v lt enough stacks ((==_iff _ 0).0 z) in
        (
          tidy,
          rw content (
              omega (
                arith,
                (==_iff (left ch count drop r v lt enough) 0).0 z,
                total-remove kind (items r.client) ch zero_inventory_item inside,
                units_held,
              )),
        )
    | inr z ↦
        let some_left : 0 < left ch count drop r v lt enough = ground arith in
        let (tidy, content) = after_kept ch count drop r v lt enough stacks some_left in
        (
          tidy,
          rw content (
              omega (
                arith,
                total-set kind (items r.client) ch (i' ch count drop r v lt enough)
                    zero_inventory_item inside,
                units_held,
                units_stack (slot r.client ch) (left ch count drop r v lt enough) bytes some_left,
              )),
        )
  ]

-- Deleting `count` units (at least 1) of a stackable item that a tidy inventory holds in a stack
-- of at least that size leaves a tidy inventory with exactly that many units of the kind fewer,
-- dropped or not, whether or not the stack is used up.
pub delete_item-units :
    (itemid count ch : ℕ) (drop : Bool) (r : Room)
    → IsTidy r.client
    → find_index (has_id itemid) r.client.inventory_use r.client.inventory ≡ some ch
    → 0 < stackable (slot r.client ch).item.data_bytes
    → 5 < length (slot r.client ch).item.data_bytes
    → 0 < count
    → count ≤ at_least_one (byte (slot r.client ch).item 5)
    → let kind = compare_item (slot r.client ch).item.data_bytes in
      let c' = (delete_item itemid count drop r).client in
      IsTidy c' × (total kind (items c') + count ≡ total kind (items r.client))
unfolding delete_item delete_found
delete_item-units itemid count ch drop r v found stacks bytes pos enough =
    let f = find_index-Found (has_id itemid) zero_inventory_item _ _ ch found in
    rw
      (
        found,
        delete_item,
        ne_test (stackable (slot r.client ch).item.data_bytes) stacks,
        ne_test count pos,
        ne_test count pos,
      )
      (total-after ch count drop r v f.below enough stacks bytes)
