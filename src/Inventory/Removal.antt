-- ===== src/Inventory/Removal.antt =====
-- `DeleteFromInventory` of ship_server.c.
pub mod Units
use tethealla.Base.{
  ℕ, ◌+◌, ◌-◌, ◌%◌, ◌^◌, List, [], ◌∷◌, ◌++◌, Bool, true, false, ◌&&◌, ◌||◌, Option, none, some,
  ltb, ◌==◌, if◌then◌else◌,
}
use tethealla.Item.{
  Item, InventoryItem, byte, set_byte, le32, compare_item, stackable, at_least_one,
}
use tethealla.Game.{Client, Room, World, in_lobby, disconnect, send, find_index, slot, set_slot}
use tethealla.Inventory.CleanUp.{clean_up_inventory}
use tethealla.Inventory.Delete.{delete_slot}

-- The test of the loop: the kind, and the item id where one is given.
abbrev pub is_wanted : Item → InventoryItem → Bool
is_wanted i s =
    compare_item i.data_bytes == compare_item s.item.data_bytes
    && (i.itemid == 0 || s.item.itemid == i.itemid)

-- The packet that tells the lobby
abbrev pub removal_packet : Room → ℕ → ℕ → List ℕ
removal_packet r itemid count =
    (0x14 ∷ 0 ∷ 0x60 ∷ 0 ∷ 0 ∷ 0 ∷ 0 ∷ 0 ∷ 0x29 ∷ 0x05 ∷ r.client.client_id ∷ 0 ∷ [])
    ++ (le32 itemid ++ (count % 256 ∷ 0 ∷ 0 ∷ 0 ∷ []))

-- The branch of a stack: more than it holds is cut down to all of it.
abbrev pub taken_units : ℕ → ℕ → ℕ
taken_units stack_count count = if ltb stack_count count then stack_count else count

unfoldable pub remove_units : ℕ → ℕ → Room → Room
remove_units ch count r =
    let i = slot r.client ch in
    let stack_count = at_least_one (byte i.item 5) in
    let n = taken_units stack_count count in
    let left = stack_count - n in
    let c = set_slot ch (record i { item = set_byte i.item 5 left }) r.client in
    let r' = send (removal_packet r i.item.itemid n) 0 r in
    record r' { client = if left == 0 then delete_slot ch c else c }

-- The branch of an item that does not stack
unfoldable pub remove_whole : ℕ → ℕ → Room → Room
remove_whole ch count r =
    let r' = send (removal_packet r (slot r.client ch).item.itemid count) 0 r in
    record r' { client = delete_slot ch r.client }

-- What is done where the loop has found the item.
unfoldable pub remove_found : ℕ → ℕ → Room → Room
remove_found ch count r =
    let limit = stackable (slot r.client ch).item.data_bytes in
    let r' =
      if limit == 0 then remove_whole ch count r else remove_units ch (at_least_one count) r in
    record r' { client = clean_up_inventory r'.client }

-- `DeleteFromInventory`, with a lobby
unfoldable pub delete_from : Item → ℕ → Room → Room
delete_from i count r = elim (find_index (is_wanted i) r.client.inventory_use r.client.inventory) [
  | none ↦ disconnect "Could not find item to delete from inventory." r
  | some ch ↦ remove_found ch count r
]

-- `DeleteFromInventory`
unfoldable pub delete_from_inventory : Item → ℕ → World → World
delete_from_inventory i count = in_lobby (delete_from i count)
