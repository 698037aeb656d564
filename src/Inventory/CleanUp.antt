-- ===== src/Inventory/CleanUp.antt =====
-- `CleanUpInventory` of ship_server.c.
pub mod Packed
use tethealla.Base.{
  ℕ, zero, suc, ◌-◌, List, [], ◌∷◌, ◌++◌, Bool, true, false, ◌==◌, if◌then◌else◌, length, take,
  replicate,
}
use tethealla.Item.{InventoryItem, zero_inventory_item}
use tethealla.Game.{Client}

-- The slots of a character's inventory.
abbrev pub max_inventory : ℕ
max_inventory = 30

-- The loop that copies what is in use to `sort_data`.
pub kept : List InventoryItem → List InventoryItem
kept [] = []
kept (i ∷ slots) = if i.in_use == 0 then kept slots else i ∷ kept slots

-- `CleanUpInventory`
unfoldable pub clean_up_inventory : Client → Client
clean_up_inventory c =
    let sort_data = kept (take max_inventory c.inventory) in
    record c {
      inventory_use = length sort_data;
      inventory = sort_data ++ replicate (max_inventory - length sort_data) zero_inventory_item;
    }
