-- ===== src/Equip/Dressed/Ready.antt =====
-- Where the parts of `EquipItem` leave room for the item.
use tethealla.Base.{
  ℕ, ◌<◌, ◌≡◌, ◌≢◌, ◌⊎◌, inl, inr, refl, ap, sym, ◌∙◌, Bool, true, false, if◌then◌else◌, arith,
  length, length-set, get_or-set_self, get_or-set_ne, subst, Option-cases,
}
use tethealla.Item.{InventoryItem, byte, set_byte, zero_inventory_item}
use tethealla.Game.{Client, Room, slot, set_slot}
use tethealla.Equip.{
  taken_off, put_on, take_off, take_out, each_item, disallowed, unless_todc, free_slot, equip_unit,
}
use tethealla.Equip.Flags.{equipped-taken_off}
use tethealla.Equip.Worn.{
  worn_count-set_le, worn_count-set_twice_le, length-map_first, get_or-map_first, byte-take_off,
}
use tethealla.Equip.Dressed.{Lower, Adds, HasRoom}
use tethealla.Equip.Dressed.TakenOff.{Lower-refl, set_slot-Lower}
use tethealla.Equip.Dressed.Slots.{free_slot_lem}
use tethealla.Equip.Dressed.Kinds.{HasRoom-unit}

-- After the `switch`: the client is to be disconnected and nothing is put on, or `P` holds and there
-- is room for the item, beside what `c₀` wears.
abbrev pub Ready : Type 0 → Client → ℕ → Client → Type 0
Ready P c ch c₁ =
    let x = put_on (slot c₁ ch) in
    ((c₁.todc ≡ true) × Lower c c₁)
    ⊎ ((c₁.todc ≡ false)
        × (ch < length c₁.inventory)
        × P
        × ((c₀ : Client) × Lower c c₀ × HasRoom x c₀ × Adds x c₀ (set_slot ch x c₁)))

pub unless_todc-alive :
    (f : Client → Client) (r : Room) → r.client.todc ≡ false → (unless_todc f r).client ≡ f r.client
unfolding unless_todc
unless_todc-alive f r h = ap (λ b. (if b then r else record r { client = f r.client }).client) h

pub unless_todc-dead :
    (f : Client → Client) (r : Room) → r.client.todc ≡ true → (unless_todc f r).client ≡ r.client
unfolding unless_todc
unless_todc-dead f r h = ap (λ b. (if b then r else record r { client = f r.client }).client) h

module _ (P : Type 0) (ch : ℕ) (r : Room) (alive : r.client.todc ≡ false) where
  abbrev pub at : Client → InventoryItem
  at c = put_on (slot c ch)

  pub cleared-Ready :
      (f : InventoryItem → InventoryItem)
      → P
      → ch < length r.client.inventory
      → Lower r.client (each_item f r.client)
      → HasRoom (at (each_item f r.client)) (each_item f r.client)
      → Ready P r.client ch (each_item f r.client)
  cleared-Ready f p inside low room =
      let c₁ = each_item f r.client in
      inr (
        alive,
        omega (
          arith,
          length-map_first f zero_inventory_item r.client.inventory_use r.client.inventory,
        ),
        p,
        (c₁, low, room, λ kind. worn_count-set_le kind c₁.inventory_use ch c₁.inventory (at c₁)),
      )

  pub guarded-Ready :
      (f : InventoryItem → InventoryItem) (allowed : Bool)
      → (allowed ≡ true → Ready P r.client ch (each_item f r.client))
      → Ready P r.client ch (unless_todc (each_item f) (disallowed allowed r)).client
  unfolding unless_todc
  guarded-Ready f true ready =
      subst (Ready P r.client ch) (sym (unless_todc-alive (each_item f) r alive)) (ready refl)
  guarded-Ready f false ready = inl (refl, Lower-refl r.client)

  -- The kind of an item after a loop
  pub kind_kept :
      (kind : InventoryItem → Bool) (k : ℕ)
      → 4 ≢ k
      → (byte (at (each_item (take_off kind) r.client)).item k ≡ byte (slot r.client ch).item k)
        × (byte (at (each_item (take_out kind) r.client)).item k ≡ byte (slot r.client ch).item k)
  kind_kept kind k ne =
      let n = r.client.inventory_use in
      let d = zero_inventory_item in
      (
        get_or-map_first (take_off kind) d (λ i. byte i.item k) n ch r.client.inventory
            (λ i. (byte-take_off kind k i ne).0),
        get_or-map_first (take_out kind) d (λ i. byte i.item k) n ch r.client.inventory
            (λ i. (byte-take_off kind k i ne).1),
      )

  pub unit-Ready :
      P
      → byte (slot r.client ch).item 0 ≡ 1
      → byte (slot r.client ch).item 1 ≡ 3
      → ch < length r.client.inventory
      → 5 < length (slot r.client ch).item.data_bytes
      → Ready P r.client ch (equip_unit ch r).client
  unfolding equip_unit
  unit-Ready p b b' inside shaped = elim (Option-cases (free_slot r.client)) [
    | inl full ↦
        rw (equip_unit, full)
          (inl (
            refl,
            set_slot-Lower ch (taken_off (slot r.client ch)) r.client
                (equipped-taken_off (slot r.client ch)),
          ))
    | inr (k, e) ↦
        let c = r.client in
        let i = slot c ch in
        let i' = record i { item = set_byte i.item 4 k } in
        let here : slot (set_slot ch i' c) ch ≡ i' =
          get_or-set_self c.inventory ch i' zero_inventory_item inside in
        let (below, free) = free_slot_lem c k e in
        let bytes = i.item.data_bytes in
        let room : HasRoom (put_on i') c =
          HasRoom-unit (put_on i') c k (get_or-set_ne bytes 4 0 k 0 (λ h. omega arith) ∙ b)
            (get_or-set_ne bytes 4 1 k 0 (λ h. omega arith) ∙ b')
            (get_or-set_self bytes 4 k 0 (omega arith)) below free in
        rw (equip_unit, e)
          (inr (
            alive,
            omega (arith, length-set c.inventory ch i'),
            p,
            (
              c,
              Lower-refl c,
              subst (λ j. HasRoom (put_on j) c) (sym here) room,
              λ kind.
                  worn_count-set_twice_le kind c.inventory_use ch c.inventory i'
                    (put_on (slot (set_slot ch i' c) ch)),
            ),
          ))
  ]
