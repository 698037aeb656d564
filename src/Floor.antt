-- ===== src/Floor.antt =====
-- The items that lie in a game: `CleanUpGameInventory` and `free_game_item` of ship_server.c.
pub mod Compact
pub mod Oldest
pub mod Free
use tethealla.Base.{
  ℕ, zero, suc, ◌+◌, ◌-◌, List, [], ◌∷◌, ◌++◌, Bool, true, false, Option, none, some, ◌&&◌, ltb,
  leb, ◌==◌, if◌then◌else◌, get_or, set, take, replicate,
}
use tethealla.Item.{Item, no_item, zero_item}
use tethealla.Game.{Lobby, Room, find_index, send_ee}

-- `MAX_SAVED_ITEMS`
abbrev pub max_saved_items : ℕ
max_saved_items = 3000

-- The loop of `CleanUpGameInventory`, with the rounds left: `ch` reads and `item_count` writes.
unfoldable pub compact : ℕ → ℕ → ℕ → List ℕ → List ℕ × ℕ
compact zero ch item_count links = (links, item_count)
compact (suc n) ch item_count links =
    let link = get_or links ch no_item in
    let free = link == no_item in
    compact n (ch + 1) (if free then item_count else item_count + 1)
      (if free then links else if ltb item_count ch then set links item_count link else links)

-- `CleanUpGameInventory`
unfoldable pub clean_up_game_inventory : Lobby → Lobby
clean_up_game_inventory l =
    let (links, item_count) = compact l.game_item_count 0 0 l.game_item_list in
    record l {
      game_item_list =
          if ltb item_count max_saved_items
          then take item_count links ++ replicate (max_saved_items - item_count) no_item
          else links;
      game_item_count = item_count;
    }

-- The scan for the oldest dropped item: the index and the id found so far.
pub oldest_scan : ℕ → List Item → ℕ → ℕ → ℕ
oldest_scan ch [] ch2 oldest_item = ch2
oldest_scan ch (i ∷ items) ch2 oldest_item =
    let older = ltb i.itemid oldest_item && leb 0x810000 i.itemid in
    oldest_scan (ch + 1) items (if older then ch else ch2) (if older then i.itemid else oldest_item)

abbrev pub item_at : Lobby → ℕ → Item
item_at l ch = get_or l.game_item ch zero_item

abbrev pub set_item : Lobby → ℕ → Item → Lobby
set_item l ch i = record l { game_item = set l.game_item ch i }

-- The end of `free_game_item`, where no slot is free.
pub evict : Room → Room × ℕ
evict r =
    let l = r.lobby in
    let ch2 = oldest_scan 0 (take max_saved_items l.game_item) no_item no_item in
    if ch2 == no_item
    then (
      record r {
        sent =
            send_ee "Lobby inventory problem!  It's advised you quit this game and recreate it."
            ∷ r.sent;
      },
      0,
    )
    else (record r { lobby = set_item l ch2 (record (item_at l ch2) { itemid = 0 }) }, ch2)

-- `free_game_item`
unfoldable pub free_game_item : Room → Room × ℕ
unfolding evict
free_game_item r =
    let l = r.lobby in
    if ltb l.game_item_count max_saved_items && (item_at l l.game_item_count).itemid == 0
    then (r, l.game_item_count)
    else elim (find_index (λ i. i.itemid == 0) max_saved_items l.game_item) [
      | some ch2 ↦ (r, ch2)
      | none ↦ evict r
    ]

-- `if (gameItemCount < MAX_SAVED_ITEMS) gameItemList[gameItemCount++] = newItemNum;`
unfoldable pub link_item : ℕ → Lobby → Lobby
link_item num l =
    if ltb l.game_item_count max_saved_items
    then record l {
      game_item_list = set l.game_item_list l.game_item_count num;
      game_item_count = l.game_item_count + 1;
    }
    else l
