-- ===== src/Equip/Dressed/PutOn.antt =====
-- What `EquipItem` leaves worn.
use tethealla.Base.{
  ℕ, ◌≡◌, ◌⊎◌, inl, inr, ap, sym, ◌∙◌, Bool, true, false, some, get_or-set_self, subst,
}
use tethealla.Item.{InventoryItem, equipped, zero_inventory_item}
use tethealla.Game.{Client, Room, find_index, slot, set_slot, has_id}
use tethealla.Game.Find.{find_index-Found}
use tethealla.Inventory.Add.Slots.{IsShaped, IsShaped-at}
use tethealla.Equip.{put_on, equip_found, equip_item}
use tethealla.Equip.Flags.{equipped-put_on}
use tethealla.Equip.Dressed.{IsDressed, Lower, IsDressed-Lower, IsDressed-Adds}
use tethealla.Equip.Dressed.Switch.{permitted, room_made, make_room-Ready}
use tethealla.Equip.Dressed.Ready.{unless_todc-alive, unless_todc-dead}

module _ (weapon_equip_table : ℕ → ℕ → ℕ)
    (armor_equip_table armor_level_table barrier_equip_table barrier_level_table : ℕ → ℕ) where
  abbrev allowed : InventoryItem → Client → Bool
  allowed =
      permitted weapon_equip_table armor_equip_table armor_level_table barrier_equip_table
        barrier_level_table

  abbrev made : ℕ → Room → Room
  made =
      room_made weapon_equip_table armor_equip_table armor_level_table barrier_equip_table
        barrier_level_table

  abbrev equip : ℕ → Room → Room
  equip =
      equip_item weapon_equip_table armor_equip_table armor_level_table barrier_equip_table
        barrier_level_table

  -- The outcome: the item is worn by right, or nothing is put on and the client has to go.
  abbrev pub Outcome : Client → ℕ → Client → Type 0
  Outcome c ch c' =
      IsDressed c'
      × (((c'.todc ≡ true) × Lower c c')
          ⊎ ((c'.todc ≡ false) × (equipped (slot c' ch) ≡ true) × (allowed (slot c ch) c ≡ true)))

  -- A client that is not to be disconnected puts on an item of its inventory: the rule of the
  -- equipment is kept. Either the item is then worn, and the character may wear it; or the client
  -- is to be disconnected, and nothing has been put on.
  pub equip_item-IsDressed :
      (itemid ch : ℕ) (r : Room)
      → find_index (has_id itemid) r.client.inventory_use r.client.inventory ≡ some ch
      → r.client.todc ≡ false
      → IsShaped r.client.inventory
      → IsDressed r.client
      → Outcome r.client ch (equip itemid r).client
  unfolding equip_item equip_found
  equip_item-IsDressed itemid ch r found alive shaped h =
      let c = r.client in
      let r₁ = made ch r in
      let put = λ (c : Client). set_slot ch (put_on (slot c ch)) c in
      let place =
        find_index-Found (has_id itemid) zero_inventory_item c.inventory_use c.inventory ch found in
      let size = IsShaped-at c.inventory ch zero_inventory_item shaped place.inside in
      rw (equip_item, found)
        (elim (make_room-Ready weapon_equip_table armor_equip_table armor_level_table
          barrier_equip_table barrier_level_table ch r alive place.inside size) [
            | inl (dead, low) ↦
                let same = unless_todc-dead put r₁ dead in
                subst (Outcome c ch) (sym same) (IsDressed-Lower c r₁.client h low, inl (dead, low))
            | inr (lives, inside, ok, (c₀, low, room, adds)) ↦
                let same = unless_todc-alive put r₁ lives in
                let x = put_on (slot r₁.client ch) in
                let here = get_or-set_self r₁.client.inventory ch x zero_inventory_item inside in
                subst (Outcome c ch) (sym same) (
                  IsDressed-Adds x c₀ (put r₁.client) (IsDressed-Lower c c₀ h low) room adds,
                  inr (lives, ap equipped here ∙ equipped-put_on (slot r₁.client ch), ok),
                )
          ])
