-- ===== src/Inventory/Order/Renumbered.antt =====
-- The item ids that `UpdateGameItem` gives.
use tethealla.Base.{
  ℕ, zero, suc, ◌+◌, ◌%◌, ◌^◌, ◌≤◌, ◌<◌, ◌≡◌, List, [], ◌∷◌, arith, length, get_or, get_or-set_self,
}
use tethealla.Item.{InventoryItem, zero_inventory_item}
use tethealla.Game.{Room, slot}
use tethealla.Inventory.Delete.{next_id}
use tethealla.Inventory.Order.{renumber, update_items}

renumber-id :
    (n id k : ℕ) (slots : List InventoryItem)
    → id < 2 ^ 32
    → k < n
    → n ≤ length slots
    → (get_or (renumber n id slots) k zero_inventory_item).item.itemid ≡ (id + k) % 2 ^ 32
unfolding renumber
renumber-id zero id k slots small lt le = absurd (omega arith)
renumber-id (suc n) id k [] small lt le = absurd (omega arith)
renumber-id (suc n) id zero (s ∷ slots) small lt le = omega arith
renumber-id (suc n) id (suc k) (s ∷ slots) small lt le =
    omega
      (arith, renumber-id n ((id + 1) % 2 ^ 32) k slots (omega arith) (omega arith) (omega arith))

-- Where there is a next id for the player, `UpdateGameItem` gives the items of a client consecutive ids (mod 2^32) from the player's next id
-- on, and the player's next id is the one after them.
pub update_items-ids :
    (k : ℕ) (r : Room)
    → next_id r < 2 ^ 32
    → k < r.client.inventory_use
    → r.client.inventory_use ≤ length r.client.inventory
    → r.client.client_id < length r.lobby.player_item_id
    → ((slot (update_items r).client k).item.itemid ≡ (next_id r + k) % 2 ^ 32)
      × (next_id (update_items r) ≡ (next_id r + r.client.inventory_use) % 2 ^ 32)
unfolding update_items
update_items-ids k r small lt le player = (
  renumber-id r.client.inventory_use (next_id r) k r.client.inventory small lt le,
  get_or-set_self r.lobby.player_item_id r.client.client_id _ 0 player,
)
