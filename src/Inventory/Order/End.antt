-- ===== src/Inventory/Order/End.antt =====
-- What `SendItemToEnd` leaves in the inventory.
use tethealla.Base.{
  ℕ, zero, suc, ◌+◌, ◌<◌, ◌≡◌, refl, ap, ◌∙◌, List, [], ◌∷◌, ◌++◌, some, arith, length, length-set,
  length-take,
}
use tethealla.Item.{InventoryItem, zero_inventory_item}
use tethealla.Game.{Client, find_index, slot, set_slot, has_id}
use tethealla.Game.Find.{find_index-Found}
use tethealla.Inventory.CleanUp.{max_inventory, clean_up_inventory}
use tethealla.Inventory.CleanUp.Packed.{
  IsTidy, items, remove, clean_up_inventory_lem, kept-set_unused, IsPacked-le,
}
use tethealla.Inventory.Delete.Content.{in_use_of_IsPacked}
use tethealla.Inventory.Add.Slots.{next_slot}
use tethealla.Inventory.Order.{send_item_to_end}

length-remove {ℓ} :
    {A : Type ℓ} (k : ℕ) (xs : List A) → k < length xs → length (remove k xs) + 1 ≡ length xs
length-remove k [] h = absurd (omega arith)
length-remove zero (x ∷ xs) h = omega arith
length-remove (suc k) (x ∷ xs) h = omega (arith, length-remove k xs (omega arith))

length-items : (c : Client) → IsTidy c → length (items c) ≡ c.inventory_use
length-items c v = omega (
  arith,
  length-take c.inventory_use c.inventory,
  IsPacked-le c.inventory_use c.inventory v.packed,
)

-- An item that a tidy inventory holds is sent to the end, unequipped; the others keep their order.
pub send_item_to_end-items :
    (itemid ch : ℕ) (garbage : InventoryItem) (c : Client)
    → IsTidy c
    → find_index (has_id itemid) c.inventory_use c.inventory ≡ some ch
    → let c' = send_item_to_end itemid garbage c in
      IsTidy c' × (items c' ≡ remove ch (items c) ++ (record (slot c ch) { flags = 0 } ∷ []))
unfolding send_item_to_end
send_item_to_end-items itemid ch garbage c v found =
    let f = find_index-Found (has_id itemid) zero_inventory_item _ _ ch found in
    let gone = record (slot c ch) { in_use = 0 } in
    let c₁ = set_slot ch gone c in
    let (tidy, content, again) =
      clean_up_inventory_lem c₁ (length-set c.inventory ch gone ∙ v.size) in
    let rest : items (clean_up_inventory c₁) ≡ remove ch (items c) =
      content ∙ kept-set_unused c.inventory_use c.inventory ch gone v.packed f.below refl in
    let short : (clean_up_inventory c₁).inventory_use < max_inventory = omega (
      arith,
      length-items (clean_up_inventory c₁) tidy,
      length-items c v,
      ap length rest,
      length-remove ch (items c) (omega (arith, f.below, length-items c v)),
      IsPacked-le c.inventory_use c.inventory v.packed,
      v.size,
    ) in
    let (tidy', last) =
      next_slot (record (slot c ch) { flags = 0 }) (clean_up_inventory c₁) tidy short
        (in_use_of_IsPacked c.inventory_use c.inventory ch zero_inventory_item v.packed f.below) in
    rw (found, send_item_to_end)
      (tidy', last ∙ ap (λ xs. xs ++ (record (slot c ch) { flags = 0 } ∷ [])) rest)
