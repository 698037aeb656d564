-- ===== src/Game.antt =====
-- The state that the item functions of ship_server.c share: the client and its character, the
-- lobby, and what has been sent.
pub mod Find
use Prim.Native.String.{String}
use tethealla.Base.{
  ℕ, zero, suc, ◌+◌, ◌-◌, ◌%◌, ◌^◌, List, [], ◌∷◌, ◌++◌, Bool, true, false, not, Option, none, some,
  ltb, ◌==◌, if◌then◌else◌, get_or, set,
}
use tethealla.Item.{Item, InventoryItem, BankItem, zero_inventory_item}

-- The six statistics of `CHARDATA` that grow with the level
pub record Stats : Type 0 where
  pub atp : ℕ
  pub mst : ℕ
  pub evp : ℕ
  pub hp : ℕ
  pub dfp : ℕ
  pub ata : ℕ

-- `BANANA`, with the fields of its `character` that the functions use
pub record Client : Type 0 where
  pub inventory_use : ℕ
  pub inventory : List InventoryItem
  pub meseta : ℕ
  pub bank_use : ℕ
  pub bank_meseta : ℕ
  pub bank_inventory : List BankItem
  pub todc : Bool
  pub client_id : ℕ
  pub guildcard : ℕ
  pub drop_area : ℕ
  pub drop_coords : List ℕ
  pub equip_flags : ℕ
  pub char_class : ℕ
  pub level : ℕ
  pub xp : ℕ
  pub stats : Stats

-- `LOBBY`, with the fields of the items in the game
pub record Lobby : Type 0 where
  pub game_item : List Item
  pub game_item_list : List ℕ
  pub game_item_count : ℕ
  pub item_id : ℕ
  pub player_item_id : List ℕ

-- What the functions send: a message to the client, a packet to the lobby (with the guild card
-- that it is not sent to), and the warning to the players of the lobby.
pub data Sending : Type 0 where
  send1a : String → Sending
  send_to_lobby : List ℕ → ℕ → Sending
  send_ee : String → Sending

abbrev pub no_stats : Stats
no_stats = record { atp = 0; mst = 0; evp = 0; hp = 0; dfp = 0; ata = 0 }

-- A client in a lobby, and what has been sent, the latest first.
pub record Room : Type 0 where
  pub client : Client
  pub lobby : Lobby
  pub sent : List Sending

-- The state before `if (!client->lobby) return`.
pub record World : Type 0 where
  pub client : Client
  pub lobby : Option Lobby
  pub sent : List Sending

-- A function whose first test is `if (!client->lobby) return`, and one that returns 0 there.
abbrev pub in_lobby : (Room → Room) → World → World
in_lobby f w = elim w.lobby [
  | none ↦ w
  | some l ↦
      let r = f (record { client = w.client; lobby = l; sent = w.sent }) in
      record { client = r.client; lobby = some r.lobby; sent = r.sent }
]

abbrev pub in_lobby_result : (Room → Room × Bool) → World → World × Bool
in_lobby_result f w = elim w.lobby [
  | none ↦ (w, false)
  | some l ↦
      let (r, added) = f (record { client = w.client; lobby = l; sent = w.sent }) in
      (record { client = r.client; lobby = some r.lobby; sent = r.sent }, added)
]

-- `Send1A (text, client); client->todc = 1;`
abbrev pub disconnect : String → Room → Room
disconnect text r = record r {
  client = record r.client { todc = true };
  sent = send1a text ∷ r.sent;
}

abbrev pub send : List ℕ → ℕ → Room → Room
send bytes nosend r = record r { sent = send_to_lobby bytes nosend ∷ r.sent }

-- `for (ch = 0; ch < limit; ch++) if (test (list[ch])) { ... break; }`: the index it stops at
unfoldable pub find_index {ℓ} : {A : Type ℓ} → (A → Bool) → ℕ → List A → Option ℕ
find_index p zero xs = none
find_index p (suc n) [] = none
find_index p (suc n) (x ∷ xs) =
    let later = find_index p n xs in
    elim (p x) [ true ↦ some 0 | false ↦ elim later [ none ↦ none | some i ↦ some (suc i) ] ]

-- The loop body done on each of the first `limit` elements
unfoldable pub map_first {ℓ} : {A : Type ℓ} → (A → A) → ℕ → List A → List A
map_first f zero xs = xs
map_first f (suc n) [] = []
map_first f (suc n) (x ∷ xs) = f x ∷ map_first f n xs

-- `inventory[ch]`
abbrev pub slot : Client → ℕ → InventoryItem
slot c ch = get_or c.inventory ch zero_inventory_item

-- `inventory[ch] = i`
abbrev pub set_slot : ℕ → InventoryItem → Client → Client
set_slot ch i c = record c { inventory = set c.inventory ch i }

-- `itemid == id` in an inventory slot
abbrev pub has_id : ℕ → InventoryItem → Bool
has_id itemid i = i.item.itemid == itemid
