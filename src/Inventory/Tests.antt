-- ===== src/Inventory/Tests.antt =====
-- The theorems on the inventory and the floor at a small game, and runs of the functions.
use tethealla.Base.{
  ℕ, ◌≤◌, true, refl, ◌+◌, ◌≡◌, refl, [], ◌∷◌, true, false, ◌||◌, if◌then◌else◌, arith, take,
  replicate, set,
}
use tethealla.Item.{stackable_table, zero_inventory_item, no_item, stackable}
use tethealla.Game.{send_to_lobby, Client, Lobby, find_index}
use tethealla.Floor.{clean_up_game_inventory, compact}
use tethealla.Inventory.CleanUp.Packed.{IsTidy, items}
use tethealla.Inventory.Units.{total}
use tethealla.Inventory.Delete.{delete_item}
use tethealla.Inventory.Delete.Stack.{delete_item-units}
use tethealla.Inventory.Delete.Outcome.{delete_item-IsTidy}
use tethealla.Inventory.Add.{
  add_to_room, told_packet, add_item, add_found, pick_up_item, stack_item, stack_onto,
}
use tethealla.Inventory.Add.PickUp.{add_item-units}
use tethealla.Inventory.Add.Told.{has_stack_room, add_to_room-told}
use tethealla.Floor.Free.{IsPlace, free_game_item-IsPlace}
use tethealla.Floor.{free_game_item}
use tethealla.Game.{Room}
use tethealla.Item.{zero_item}
use tethealla.Inventory.Sample.{monomates, hunter, game, room, tidy, shaped}

delete_item-units_example :
    let c' = (delete_item 65536 3 false room).client in
    IsTidy c' × (total 3 (items c') + 3 ≡ total 3 (items hunter))
unfolding find_index stackable
delete_item-units_example =
    delete_item-units 65536 3 0 false room tidy refl (omega arith) (omega arith) (omega arith)
      (omega arith)

delete_item-IsTidy_example : IsTidy (delete_item 65537 1 false room).client
delete_item-IsTidy_example = delete_item-IsTidy 65537 1 false room tidy

-- The three monomates of the game go to the four.
add_item-units_example :
    let (r', added) = add_item 8454144 room in
    IsTidy r'.client
    × (total 3 (items r'.client) ≡ total 3 (items hunter) + (if added then 3 else 0))
    × ((added || r'.client.todc) ≡ true)
unfolding find_index stackable
add_item-units_example = add_item-units 8454144 0 room tidy shaped refl (omega arith) (omega arith)

picks_up : (add_item 8454144 room).1 ≡ true
unfolding find_index stackable add_item add_found pick_up_item stack_item stack_onto
picks_up = refl

-- A hunter whose armor is no longer in use
abbrev undressed : Client
undressed = record hunter { inventory = set hunter.inventory 1 zero_inventory_item }

-- A list of links with a gap
abbrev gaps : Lobby
gaps = record game {
  game_item_list = 3 ∷ no_item ∷ 1 ∷ no_item ∷ replicate 2996 no_item;
  game_item_count = 3;
}

closes_gaps : take 3 (clean_up_game_inventory gaps).game_item_list ≡ 3 ∷ 1 ∷ no_item ∷ []
unfolding clean_up_game_inventory compact
closes_gaps = refl

-- Of seven monomates given, six fit on the four, and the packet tells six.
add_to_room-told_example :
    let i = monomates 65550 0 in
    let r' = (add_to_room i 7 true room).0 in
    (told : ℕ) × IsTidy r'.client
    × (total 3 (items r'.client) ≡ total 3 (items hunter) + told)
    × (told ≤ 7)
    × (r'.sent ≡ send_to_lobby (told_packet room 10 told i) 42 ∷ [])
    × ((add_to_room i 7 true room).1 ≡ true)
unfolding find_index stackable stackable_table has_stack_room
add_to_room-told_example =
    add_to_room-told (monomates 65550 0) 7 true room tidy shaped refl (omega arith) (omega arith)
      (omega arith) refl

-- A game with all its places, whose first one is taken
abbrev full_size : Room
full_size = record room {
  lobby = record game { game_item = monomates 8454144 3 ∷ replicate 2999 zero_item };
}

free_game_item-IsPlace_example : IsPlace full_size (free_game_item full_size)
free_game_item-IsPlace_example = free_game_item-IsPlace full_size refl
