-- ===== src/Inventory/Order.antt =====
-- `SendItemToEnd`, `SortClientItems` and `UpdateGameItem` of ship_server.c. The tekking data that
-- `UpdateGameItem` clears is left out.
pub mod End
pub mod Chosen
pub mod Renumbered
mod Tests
use tethealla.Base.{
  ℕ, zero, suc, ◌+◌, ◌-◌, ◌%◌, ◌^◌, List, [], ◌∷◌, ◌++◌, Bool, true, false, not, ◌&&◌, Option, none,
  some, ltb, ◌==◌, if◌then◌else◌, length, get_or, set, take, drop, replicate,
}
use tethealla.Item.{Item, InventoryItem, no_item, zero_item, zero_inventory_item, set_byte}
use tethealla.Game.{Client, Lobby, Room, World, in_lobby, find_index, slot, set_slot, has_id}
use tethealla.Inventory.CleanUp.{max_inventory, clean_up_inventory}
use tethealla.Inventory.Delete.{next_id}

-- The end of `SendItemToEnd`: the item in the next slot.
abbrev pub append_item : InventoryItem → Client → Client
append_item i c = record c {
  inventory = set c.inventory c.inventory_use i;
  inventory_use = c.inventory_use + 1;
}

-- `SendItemToEnd`. Where no item has the id, what is appended is the uninitialised variable `i`,
-- whose content is `garbage`.
unfoldable pub send_item_to_end : ℕ → InventoryItem → Client → Client
send_item_to_end itemid garbage c = elim (find_index (has_id itemid) c.inventory_use c.inventory) [
  | none ↦ append_item garbage (clean_up_inventory c)
  | some ch ↦
      append_item (record (slot c ch) { flags = 0 })
        (clean_up_inventory (set_slot ch (record (slot c ch) { in_use = 0 }) c))
]

-- An entry of `sort_data` before the loop
abbrev pub unsorted : InventoryItem
unsorted = record {
  in_use = 0;
  flags = 0;
  item = record (set_byte zero_item 1 0xff) { itemid = no_item };
}

-- The loop of `SortClientItems` over the ids of the packet
pub chosen : List ℕ → ℕ → List InventoryItem → List InventoryItem
chosen [] count slots = []
chosen (id ∷ ids) count slots =
    let later = chosen ids count slots in
    if id == no_item
    then later
    else elim (find_index (λ s. not (s.in_use == 0) && s.item.itemid == id) count slots) [
      | none ↦ later
      | some ch ↦ get_or slots ch zero_inventory_item ∷ later
    ]

-- `SortClientItems`, with the 30 ids of the packet
unfoldable pub sort_client_items : List ℕ → Client → Client
sort_client_items ids c =
    let sort_data = chosen (take max_inventory ids) c.inventory_use c.inventory in
    record c { inventory = sort_data ++ replicate (max_inventory - length sort_data) unsorted }

-- The loop of `UpdateGameItem`: the items with their new ids, from `id` on.
pub renumber : ℕ → ℕ → List InventoryItem → List InventoryItem
renumber zero id slots = slots
renumber (suc n) id [] = []
renumber (suc n) id (s ∷ slots) =
    record s { item = record (s.item) { itemid = id } } ∷ renumber n ((id + 1) % 2 ^ 32) slots

-- `UpdateGameItem`, with a lobby
unfoldable pub update_items : Room → Room
update_items r =
    let c = r.client in
    record r {
      client = record c { inventory = renumber c.inventory_use (next_id r) c.inventory };
      lobby = record (r.lobby) {
        player_item_id =
            set r.lobby.player_item_id c.client_id ((next_id r + c.inventory_use) % 2 ^ 32);
      };
    }

-- `UpdateGameItem`
unfoldable pub update_game_item : World → World
update_game_item = in_lobby update_items
