-- ===== src/Inventory/Meseta.antt =====
-- `DeleteMesetaFromClient` of ship_server.c.
pub mod Dropped
use tethealla.Base.{
  ℕ, ◌+◌, ◌-◌, ◌%◌, ◌^◌, ◌≤◌, ◌<◌, ◌≡◌, refl, List, [], ◌∷◌, ◌++◌, Bool, true, false, ltb,
  if◌then◌else◌, arith, min,
}
use tethealla.Item.{Item, le32}
use tethealla.Game.{Client, Lobby, Room, World, in_lobby, send}
use tethealla.Floor.{item_at, set_item, free_game_item, link_item}
use tethealla.Inventory.Delete.{next_id, bump_id}

-- The 12 item bytes of meseta that lies in a game
abbrev pub meseta_bytes : List ℕ
meseta_bytes = 4 ∷ 0 ∷ 0 ∷ 0 ∷ 0 ∷ 0 ∷ 0 ∷ 0 ∷ 0 ∷ 0 ∷ 0 ∷ 0 ∷ []

-- The packet of dropped meseta
abbrev pub meseta_packet : Room → ℕ → List ℕ
meseta_packet r count =
    (0x2c ∷ 0x00 ∷ 0x60 ∷ 0x00 ∷ 0 ∷ 0 ∷ 0 ∷ 0 ∷ 0x5d ∷ 0x09 ∷ r.client.client_id ∷ 0 ∷ [])
    ++ (le32 r.client.drop_area
        ++ (r.client.drop_coords ++ (meseta_bytes ++ (le32 (next_id r) ++ le32 count))))

-- `if ( drop )`: the packet, and the new game item.
unfoldable pub drop_meseta : ℕ → Room → Room
drop_meseta count r₀ =
    let r₁ = send (meseta_packet r₀ count) 0 r₀ in
    let (r, num) = free_game_item r₁ in
    let l = link_item num r.lobby in
    record r {
      lobby = bump_id r (
          set_item l num
            (record { data_bytes = meseta_bytes; itemid = next_id r; data2 = le32 count }));
    }

-- `DeleteMesetaFromClient`, with a lobby
unfoldable pub delete_meseta : ℕ → Bool → Room → Room
delete_meseta count drop r =
    let meseta = r.client.meseta in
    let short = ltb meseta count in
    let r' = record r {
      client = record r.client { meseta = if short then 0 else meseta - count };
    } in
    if drop then drop_meseta (if short then meseta else count) r' else r'

-- `DeleteMesetaFromClient`
unfoldable pub delete_meseta_from_client : ℕ → Bool → World → World
delete_meseta_from_client count drop = in_lobby (delete_meseta count drop)
