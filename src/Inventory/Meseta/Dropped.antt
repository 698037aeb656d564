-- ===== src/Inventory/Meseta/Dropped.antt =====
-- What `DeleteMesetaFromClient` leaves in the game.
use tethealla.Base.{
  ℕ, ◌+◌, ◌-◌, ◌^◌, ◌<◌, ◌≡◌, refl, ap, ◌∙◌, [], ◌∷◌, true, ltb, if◌then◌else◌, arith, length,
  get_or, set, get_or-set_self, lt→ltb,
}
use tethealla.Item.{Item, byte, le32, read_u32, zero_item}
use tethealla.Game.{Room, send}
use tethealla.Floor.{max_saved_items, item_at, free_game_item, link_item}
use tethealla.Inventory.Delete.{next_id}
use tethealla.Inventory.Delete.Content.{client-free_game_item}
use tethealla.Inventory.Meseta.{meseta_packet, drop_meseta, delete_meseta}

-- The item that lies in the game after a drop, and the link to it
pub record Lies (n id num : ℕ) (r : Room) : Type 0 where
  pub meseta : byte (item_at r.lobby num) 0 ≡ 4
  pub amount : read_u32 (item_at r.lobby num).data2 ≡ n
  pub itemid : (item_at r.lobby num).itemid ≡ id
  pub linked : get_or r.lobby.game_item_list num 0 ≡ num
  pub counted : r.lobby.game_item_count ≡ num + 1

-- The next item of the game is free.
free_next :
    (r : Room)
    → r.lobby.game_item_count < max_saved_items
    → (item_at r.lobby r.lobby.game_item_count).itemid ≡ 0
    → free_game_item r ≡ (r, r.lobby.game_item_count)
unfolding free_game_item
free_next r room free = rw (lt→ltb r.lobby.game_item_count max_saved_items room, free)

drop_meseta-Lies :
    (n : ℕ) (r : Room)
    → n < 2 ^ 32
    → r.lobby.game_item_count < max_saved_items
    → (item_at r.lobby r.lobby.game_item_count).itemid ≡ 0
    → r.lobby.game_item_count < length r.lobby.game_item
    → r.lobby.game_item_count < length r.lobby.game_item_list
    → Lies n (next_id r) r.lobby.game_item_count (drop_meseta n r)
unfolding drop_meseta link_item
drop_meseta-Lies n r small room free inside listed =
    let k = r.lobby.game_item_count in
    let fits : ltb k max_saved_items ≡ true = lt→ltb k max_saved_items room in
    let new : Item = record {
      data_bytes = 4 ∷ 0 ∷ 0 ∷ 0 ∷ 0 ∷ 0 ∷ 0 ∷ 0 ∷ 0 ∷ 0 ∷ 0 ∷ 0 ∷ [];
      itemid = next_id r;
      data2 = le32 n;
    } in
    let here : get_or (set r.lobby.game_item k new) k zero_item ≡ new =
      get_or-set_self r.lobby.game_item k new zero_item inside in
    rw (free_next (send (meseta_packet r n) 0 r) room free, fits)
      (record {
        meseta = ap (λ i. byte i 0) here;
        amount = ap (λ i. read_u32 i.data2) here ∙ omega arith;
        itemid = ap (λ i. i.itemid) here;
        linked = get_or-set_self r.lobby.game_item_list k k 0 listed;
        counted = refl;
      })

client-drop_meseta : (n : ℕ) (r : Room) → (drop_meseta n r).client ≡ r.client
unfolding drop_meseta
client-drop_meseta n r = client-free_game_item (send (meseta_packet r n) 0 r)

-- Meseta dropped where the next item of the game is free: the character loses what it is asked, or
-- all it has if that is less, and exactly that amount lies in the game, linked, under the player's
-- next item id.
pub delete_meseta-dropped :
    (count : ℕ) (r : Room)
    → r.client.meseta < 2 ^ 32
    → r.lobby.game_item_count < max_saved_items
    → (item_at r.lobby r.lobby.game_item_count).itemid ≡ 0
    → r.lobby.game_item_count < length r.lobby.game_item
    → r.lobby.game_item_count < length r.lobby.game_item_list
    → let n = if ltb r.client.meseta count then r.client.meseta else count in
      Lies n (next_id r) r.lobby.game_item_count (delete_meseta count true r)
      × ((delete_meseta count true r).client.meseta + n ≡ r.client.meseta)
unfolding delete_meseta
delete_meseta-dropped count r small room free inside listed =
    let m = r.client.meseta in
    let n = if ltb m count then m else count in
    let left = if ltb m count then 0 else m - count in
    let r' = record r { client = record r.client { meseta = left } } in
    let n_small : n < 2 ^ 32 = ground arith in
    let all : left + n ≡ m = ground arith in
    (
      drop_meseta-Lies n r' n_small room free inside listed,
      ap (λ c. c.meseta + n) (client-drop_meseta n r') ∙ all,
    )
