-- ===== src/Inventory/Delete.antt =====
-- `DeleteItemFromClient` of ship_server.c.
pub mod Content
pub mod Stack
pub mod Outcome
use tethealla.Base.{
  ℕ, ◌+◌, ◌-◌, ◌%◌, List, [], ◌∷◌, ◌++◌, Bool, true, false, not, ◌&&◌, Option, none, some, ltb,
  ◌==◌, if◌then◌else◌, get_or, set, take,
}
use tethealla.Item.{
  Item, InventoryItem, byte, set_byte, le32, stackable, at_least_one, unequip, is_worn_armor,
}
use tethealla.Game.{
  Client, Lobby, Room, World, in_lobby, disconnect, send, find_index, map_first, slot, set_slot,
  has_id,
}
use tethealla.Floor.{item_at, set_item, free_game_item, link_item}
use tethealla.Inventory.CleanUp.{clean_up_inventory}

-- `playerItemID[clientID]`
abbrev pub next_id : Room → ℕ
next_id r = get_or r.lobby.player_item_id r.client.client_id 0

-- `playerItemID[clientID]++`
abbrev pub bump_id : Room → Lobby → Lobby
bump_id r l = record l {
  player_item_id = set l.player_item_id r.client.client_id ((next_id r + 1) % 4294967296);
}

-- The packet of a dropped part of a stack, whose 12 item bytes are `dropped`.
abbrev pub drop_packet : Room → List ℕ → List ℕ
drop_packet r dropped =
    (0x28 ∷ 0x00 ∷ 0x60 ∷ 0x00 ∷ 0 ∷ 0 ∷ 0 ∷ 0 ∷ 0x5d ∷ 0x08 ∷ r.client.client_id ∷ 0 ∷ [])
    ++ (le32 r.client.drop_area ++ (r.client.drop_coords ++ (dropped ++ le32 (next_id r))))

-- `if (drop)` where a part of a stack is dropped: the packet, and the new game item.
unfoldable pub drop_part : ℕ → List ℕ → Room → Room
drop_part count data_bytes r₀ =
    let dropped = set data_bytes 5 (count % 256) in
    let r₁ = send (drop_packet r₀ dropped) 0 r₀ in
    let (r, num) = free_game_item r₁ in
    let l = link_item num r.lobby in
    record r {
      lobby =
          bump_id r
            (set_item l num (record (item_at l num) { data_bytes = dropped; itemid = next_id r }));
    }

-- `if (drop)` where the whole item is dropped
unfoldable pub drop_whole : Item → Room → Room
drop_whole i r₀ =
    let (r, num) = free_game_item r₀ in record r { lobby = set_item (link_item num r.lobby) num i }

-- The loop under `if (delete_item)`: what a worn armor holds is taken off.
abbrev pub stripped : ℕ → Client → Client
stripped ch c =
    if is_worn_armor (slot c ch)
    then record c { inventory = map_first unequip c.inventory_use c.inventory }
    else c

-- `if (delete_item)`: that loop, and the slot is no longer in use.
unfoldable pub delete_slot : ℕ → Client → Client
delete_slot ch c = let c' = stripped ch c in set_slot ch (record (slot c' ch) { in_use = 0 }) c'

-- The branch that takes `count` from a stack.
unfoldable pub delete_from_stack : ℕ → ℕ → Bool → Room → Room
delete_from_stack ch count drop r =
    let i = slot r.client ch in
    let stack_count = at_least_one (byte i.item 5) in
    let left = stack_count - count in
    let i' = record i { item = set_byte i.item 5 left } in
    let c = set_slot ch i' r.client in
    let r₁ = record r { client = c } in
    let r₂ = if drop then drop_part count i'.item.data_bytes r₁ else r₁ in
    if ltb stack_count count
    then disconnect "Trying to delete more items than posssessed!" r
    else if left == 0
    then record r₂ { client = delete_slot ch r₂.client }
    else r₂

-- The branch that takes the whole item.
unfoldable pub delete_whole : ℕ → Bool → Room → Room
delete_whole ch drop r =
    let r₁ = if drop then drop_whole (slot r.client ch).item r else r in
    record r₁ { client = delete_slot ch r₁.client }

-- What is done where the loop has found the item.
unfoldable pub delete_found : ℕ → ℕ → Bool → Room → Room
delete_found ch count drop r =
    let limit = stackable (slot r.client ch).item.data_bytes in
    let count' = if not (limit == 0) && (count == 0 && not drop) then 1 else count in
    let r' =
      if not (limit == 0) && not (count' == 0)
      then delete_from_stack ch count' drop r
      else delete_whole ch drop r in
    record r' { client = clean_up_inventory r'.client }

-- `DeleteItemFromClient`, with a lobby
unfoldable pub delete_item : ℕ → ℕ → Bool → Room → Room
delete_item itemid count drop r =
    elim (find_index (has_id itemid) r.client.inventory_use r.client.inventory) [
      | none ↦ disconnect "Could not find item to delete." r
      | some ch ↦ delete_found ch count drop r
    ]

-- `DeleteItemFromClient`
unfoldable pub delete_item_from_client : ℕ → ℕ → Bool → World → World
delete_item_from_client itemid count drop = in_lobby (delete_item itemid count drop)
