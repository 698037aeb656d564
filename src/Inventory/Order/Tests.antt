-- ===== src/Inventory/Order/Tests.antt =====
-- The theorems on the order and the removal of items at a small game.
use tethealla.Base.{◌+◌, ◌≡◌, refl, inl, inr, List, [], ◌∷◌, ◌++◌, arith, replicate, true}
use tethealla.Item.{InventoryItem, no_item, stackable}
use tethealla.Game.{find_index, slot}
use tethealla.Inventory.CleanUp.Packed.{IsTidy, items}
use tethealla.Inventory.Units.{total}
use tethealla.Inventory.Meseta.{delete_meseta}
use tethealla.Inventory.Meseta.Dropped.{Lies, delete_meseta-dropped}
use tethealla.Inventory.Removal.{delete_from}
use tethealla.Inventory.Removal.Units.{delete_from-units}
use tethealla.Inventory.Order.{sort_client_items}
use tethealla.Inventory.Order.Chosen.{ids_of, sort_client_items-order}
use tethealla.Inventory.Sample.{monomates, hunter, room, tidy}

delete_meseta-dropped_example :
    Lies 60 65539 1 (delete_meseta 60 true room)
    × ((delete_meseta 60 true room).client.meseta + 60 ≡ 100)
delete_meseta-dropped_example =
    delete_meseta-dropped 60 room (omega arith) (omega arith) refl (omega arith) (omega arith)

-- Of four monomates, nine are asked for.
delete_from-units_example :
    let c' = (delete_from (monomates 0 1) 9 room).client in
    IsTidy c' × (total 3 (items c') + 4 ≡ total 3 (items hunter))
unfolding find_index stackable
delete_from-units_example =
    delete_from-units (monomates 0 1) 9 0 room tidy refl (omega arith) (omega arith)

-- The three items, the last one first
abbrev turned : List InventoryItem
turned = slot hunter 2 ∷ slot hunter 0 ∷ slot hunter 1 ∷ []

sort_client_items-order_example :
    items (sort_client_items (ids_of turned ++ replicate 27 no_item) hunter) ≡ turned
sort_client_items-order_example =
    sort_client_items-order turned hunter tidy refl
      (inr (inr (inl refl)), (inl refl, (inr (inl refl), tt)))
      (((λ e. omega arith), ((λ e. omega arith), tt)), (((λ e. omega arith), tt), (tt, tt)))
      ((λ e. omega arith), ((λ e. omega arith), ((λ e. omega arith), tt)))
