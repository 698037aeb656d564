-- ===== src/Inventory/Add.antt =====
-- `AddItemToClient` and `AddToInventory` of ship_server.c.
pub mod Slots
pub mod PickUp
pub mod Told
use tethealla.Base.{
  ℕ, ◌+◌, ◌-◌, ◌%◌, ◌^◌, List, [], ◌∷◌, ◌++◌, Bool, true, false, not, ◌&&◌, ◌||◌, Option, none,
  some, ltb, leb, ◌==◌, if◌then◌else◌, get_or, set,
}
use tethealla.Item.{
  Item, InventoryItem, byte, set_byte, le32, read_u32, compare_item, stackable, at_least_one,
  no_item, zero_item,
}
use tethealla.Game.{
  Client, Lobby, Room, World, in_lobby_result, disconnect, send, find_index, slot, set_slot,
}
use tethealla.Floor.{item_at, set_item, clean_up_game_inventory}
use tethealla.Inventory.CleanUp.{max_inventory}

abbrev pub max_meseta : ℕ
max_meseta = 999999

-- `meseta += count`, and the cap
abbrev pub add_meseta : ℕ → Client → Client
add_meseta count c =
    let meseta = (c.meseta + count) % 2 ^ 32 in
    record c { meseta = if ltb max_meseta meseta then max_meseta else meseta }

-- `compare_item1 == compare_item2`
abbrev pub same_kind : List ℕ → InventoryItem → Bool
same_kind d i = compare_item d == compare_item i.item.data_bytes

-- `inventoryUse >= 30`, and the branches: no room, or the item in the next slot.
unfoldable pub give_item : Item → Room → Room × Bool
give_item i r =
    let c = r.client in
    if leb max_inventory c.inventory_use
    then (disconnect "Inventory limit reached." r, false)
    else (
      record r {
        client = record c {
          inventory = set c.inventory c.inventory_use (record { in_use = 1; flags = 0; item = i });
          inventory_use = c.inventory_use + 1;
        };
      },
      true,
    )

-- The stack count of a slot
abbrev pub stack_of : Client → ℕ → ℕ
stack_of c ch = at_least_one (byte (slot c ch).item 5)

-- `inventory[ch].item.data[5] = n`
abbrev pub set_stack : ℕ → ℕ → Client → Client
set_stack ch n c = set_slot ch (record (slot c ch) { item = set_byte (slot c ch).item 5 n }) c

-- The body of that loop of `AddItemToClient` which looks for a stack of the kind.
unfoldable pub stack_onto : ℕ → ℕ → ℕ → Room → Room × Bool
stack_onto limit count ch r =
    if ltb limit (stack_of r.client ch + count)
    then (disconnect "Trying to stack over the limit..." r, false)
    else (record r { client = set_stack ch ((stack_of r.client ch + count) % 256) r.client }, true)

-- The loop
unfoldable pub stack_item : ℕ → Item → Room → Room × Bool
stack_item limit i r =
    elim (find_index (same_kind i.data_bytes) r.client.inventory_use r.client.inventory) [
      | none ↦ (r, false)
      | some ch ↦ stack_onto limit (byte i 5) ch r
    ]

-- `if (item_added)`: the item is gone from the game.
unfoldable pub taken : ℕ → ℕ → Room → Room
taken ch num r =
    let l = set_item r.lobby num zero_item in
    record r {
      lobby =
          clean_up_game_inventory (record l { game_item_list = set l.game_item_list ch no_item });
    }

-- Where the item is no meseta, and may stack up to `limit`.
unfoldable pub pick_up_item : ℕ → Item → Room → Room × Bool
pick_up_item limit i r =
    let (r₁, stacked) = if not (limit == 0) then stack_item limit i r else (r, false) in
    if not r₁.client.todc && not stacked then give_item i r₁ else (r₁, stacked)

-- A stack count of 0 in the game counts as 1.
abbrev pub counted_item : ℕ → Item → Item
counted_item limit i = if not (limit == 0) && byte i 5 == 0 then set_byte i 5 1 else i

-- `gameItem[gameItemList[ch]].item`
abbrev pub linked_item : Room → ℕ → Item
linked_item r ch = item_at r.lobby (get_or r.lobby.game_item_list ch 0)

-- What is done where the loop has found the item.
unfoldable pub add_found : ℕ → Room → Room × Bool
add_found ch r =
    let num = get_or r.lobby.game_item_list ch 0 in
    let i = item_at r.lobby num in
    let limit = stackable i.data_bytes in
    let i' = counted_item limit i in
    let (r', added) =
      if byte i 0 == 4
      then (record r { client = add_meseta (read_u32 i.data2) r.client }, true)
      else pick_up_item limit i' (record r { lobby = set_item r.lobby num i' }) in
    if added then (taken ch num r', true) else (r', false)

-- `AddItemToClient`, with a lobby
unfoldable pub add_item : ℕ → Room → Room × Bool
add_item itemid r =
    elim (find_index (λ num. (item_at r.lobby num).itemid == itemid) r.lobby.game_item_count
      r.lobby.game_item_list) [ none ↦ (r, false) | some ch ↦ add_found ch r ]

-- `AddItemToClient`
unfoldable pub add_item_to_client : ℕ → World → World × Bool
add_item_to_client itemid = in_lobby_result (add_item itemid)

-- The item that `AddToInventory` puts in a slot: a stack holds its count and nothing else in
-- `data[4..7]`.
abbrev pub stack_bytes : ℕ → List ℕ → List ℕ
stack_bytes count d = set (set (set (set d 4 0) 5 (count % 256)) 6 0) 7 0

-- The body of the loop of `AddToInventory` that fills a stack of the kind: the room, the count
-- that the packet tells, and that there was such a stack.
unfoldable pub fill_onto : ℕ → ℕ → ℕ → Room → Room × ℕ × Bool
fill_onto limit count ch r =
    let stack_count = stack_of r.client ch in
    if ltb limit (stack_count + count)
    then (
      record r { client = set_stack ch limit r.client },
      (limit + 2 ^ 32 - stack_count) % 2 ^ 32,
      true,
    )
    else (record r { client = set_stack ch ((stack_count + count) % 256) r.client }, count, true)

-- The loop
unfoldable pub fill_stack : ℕ → ℕ → Item → Room → Room × ℕ × Bool
fill_stack limit count i r =
    elim (find_index (same_kind i.data_bytes) r.client.inventory_use r.client.inventory) [
      | none ↦ (r, count, false)
      | some ch ↦ fill_onto limit count ch r
    ]

-- The branch for an item that is no meseta
unfoldable pub add_stack_or_item : ℕ → ℕ → Item → Room → Room × ℕ × Bool
add_stack_or_item limit count i r =
    if limit == 0
    then (let (r', added) = give_item i r in (r', count, added))
    else (let (r₁, told, stacked) = fill_stack limit (at_least_one count) i r in
        if stacked
        then (r₁, told, true)
        else (let (r₂, added) =
              give_item (record i { data_bytes = stack_bytes told i.data_bytes }) r₁ in
            (r₂, told, added)))

-- The packet that tells the lobby of the new item
abbrev pub item_packet : Room → List ℕ → ℕ → List ℕ → List ℕ
item_packet r item_bytes itemid extra =
    (0x24 ∷ 0 ∷ 0x60 ∷ 0 ∷ 0 ∷ 0 ∷ 0 ∷ 0 ∷ 0xbe ∷ 0x09 ∷ r.client.client_id ∷ 0 ∷ [])
    ++ (item_bytes ++ (le32 itemid ++ (extra ++ (0 ∷ 0 ∷ 0 ∷ 0 ∷ []))))

abbrev pub told_packet : Room → ℕ → ℕ → Item → List ℕ
told_packet r limit told i =
    if limit == 0 || byte i 0 == 4
    then item_packet r i.data_bytes i.itemid i.data2
    else item_packet r (set i.data_bytes 5 (told % 256)) i.itemid (0 ∷ 0 ∷ 0 ∷ 0 ∷ [])

-- `AddToInventory`, with a lobby
unfoldable pub add_to_room : Item → ℕ → Bool → Room → Room × Bool
add_to_room i count shop r =
    let limit = stackable i.data_bytes in
    let (r', told, added) =
      if byte i 0 == 4
      then (record r { client = add_meseta (read_u32 i.data2) r.client }, read_u32 i.data2, true)
      else if r.client.todc
      then (r, count, false)
      else add_stack_or_item limit count i r in
    if not r'.client.todc && added
    then (send (told_packet r' limit told i) (if shop then r.client.guildcard else 0) r', true)
    else (r', added)

-- `AddToInventory`
unfoldable pub add_to_inventory : Item → ℕ → Bool → World → World × Bool
add_to_inventory i count shop = in_lobby_result (add_to_room i count shop)
