-- ===== src/Inventory/Removal/Units.antt =====
-- `DeleteFromInventory` of a stack takes what `DeleteItemFromClient` would.
use tethealla.Base.{ℕ, ◌+◌, ◌<◌, ◌≡◌, refl, false, some, arith, length}
use tethealla.Item.{Item, zero_inventory_item, byte, stackable, at_least_one, compare_item}
use tethealla.Game.{Room, find_index, slot}
use tethealla.Game.Find.{find_index-Found}
use tethealla.Inventory.CleanUp.Packed.{IsTidy, items}
use tethealla.Inventory.Units.{total}
use tethealla.Inventory.Delete.{delete_from_stack}
use tethealla.Inventory.Delete.Stack
use tethealla.Inventory.Removal.{is_wanted, taken_units, remove_units, remove_found, delete_from}

remove_units_client :
    (ch count : ℕ) (r : Room) (v : IsTidy r.client) (lt : ch < r.client.inventory_use)
    → let n = taken_units (at_least_one (byte (slot r.client ch).item 5)) count in
      (remove_units ch count r).client ≡ (delete_from_stack ch n false r).client
unfolding remove_units
remove_units_client ch count r v lt =
    let n = taken_units (at_least_one (byte (slot r.client ch).item 5)) count in
    rw (Stack.client-delete_from_stack ch n false r v lt (ground arith)) refl

-- `DeleteFromInventory` of a stackable item that a tidy inventory holds takes the units asked (a
-- count of 0 is 1), or all of the stack if it holds fewer, and no others; the inventory stays tidy.
pub delete_from-units :
    (i : Item) (count ch : ℕ) (r : Room)
    → IsTidy r.client
    → find_index (is_wanted i) r.client.inventory_use r.client.inventory ≡ some ch
    → 0 < stackable (slot r.client ch).item.data_bytes
    → 5 < length (slot r.client ch).item.data_bytes
    → let kind = compare_item (slot r.client ch).item.data_bytes in
      let c' = (delete_from i count r).client in
      IsTidy c'
      × (total kind (items c')
            + taken_units (at_least_one (byte (slot r.client ch).item 5)) (at_least_one count)
          ≡ total kind (items r.client))
unfolding delete_from remove_found
delete_from-units i count ch r v found stacks bytes =
    let f = find_index-Found (is_wanted i) zero_inventory_item _ _ ch found in
    let n = taken_units (at_least_one (byte (slot r.client ch).item 5)) (at_least_one count) in
    rw
      (
        found,
        delete_from,
        Stack.ne_test (stackable (slot r.client ch).item.data_bytes) stacks,
        remove_units_client ch (at_least_one count) r v f.below,
      )
      (Stack.total-after ch n false r v f.below (ground arith) stacks bytes)
