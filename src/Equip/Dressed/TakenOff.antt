-- ===== src/Equip/Dressed/TakenOff.antt =====
-- What `DeequipItem` leaves worn.
use tethealla.Base.{
  ℕ, ◌≡◌, ap, Bool, true, false, some, ◌==◌, arith, ◌∙◌, ◌<◌, length, if◌then◌else◌,
  get_or-set_self, get_or-set_ne, length-set, ◌≢◌,
}
use tethealla.Item.{InventoryItem, byte, equipped, zero_inventory_item}
use tethealla.Game.{Client, Room, find_index, slot, set_slot, has_id}
use tethealla.Game.Find.{find_index-Found}
use tethealla.Equip.{
  is_weapon, is_armor_or_unit, is_barrier, is_unit, is_mag_kind, taken_off, out_of_slot, take_off,
  take_out, each_item, clear_kind, deequip_found, deequip_item,
}
use tethealla.Equip.Flags.{equipped-taken_off}
use tethealla.Equip.Worn.{
  worn-off, worn-take_off, worn-take_off_le, worn_count-map_first_le, worn_count-map_first_none,
  worn_count-set_le, equipped-take_off, equipped-map_first,
}
use tethealla.Equip.Dressed.{is_armor, wears, IsDressed, Lower, IsDressed-Lower}

pub Lower-trans : (a b c : Client) → Lower a b → Lower b c → Lower a c
Lower-trans a b c p q kind = omega (arith, p kind, q kind)

pub Lower-refl : (c : Client) → Lower c c
Lower-refl c kind = omega arith

pub each_item-take_off :
    (kind : InventoryItem → Bool) (c : Client) → Lower c (each_item (take_off kind) c)
each_item-take_off kind c part =
    worn_count-map_first_le part (take_off kind) c.inventory_use c.inventory
      (λ i. (worn-take_off_le kind part i).0)

pub each_item-take_out :
    (kind : InventoryItem → Bool) (c : Client) → Lower c (each_item (take_out kind) c)
each_item-take_out kind c part =
    worn_count-map_first_le part (take_out kind) c.inventory_use c.inventory
      (λ i. (worn-take_off_le kind part i).1)

-- An item in a slot that is not equipped
pub set_slot-Lower :
    (ch : ℕ) (i : InventoryItem) (c : Client) → equipped i ≡ false → Lower c (set_slot ch i c)
set_slot-Lower ch i c off kind =
    omega (arith, worn_count-set_le kind c.inventory_use ch c.inventory i, worn-off kind i off)

-- What holds of both branches
pub if_both : (P : Client → Type 0) (b : Bool) (x y : Client) → P x → P y → P (if b then x else y)
if_both P true x y p q = p
if_both P false x y p q = q

module _ (ch : ℕ) (c : Client) where
  -- What holds of each of its results holds of the `switch`.
  clear_kind-cases :
      (P : Client → Type 0)
      → ((kind : InventoryItem → Bool) → P (each_item (take_off kind) c))
      → ((kind : InventoryItem → Bool) → P (each_item (take_out kind) c))
      → P (set_slot ch (out_of_slot (slot c ch)) c)
      → P c
      → P (clear_kind ch c)
  unfolding clear_kind
  clear_kind-cases P off out unit stay =
      let b₀ = byte (slot c ch).item 0 in
      let b₁ = byte (slot c ch).item 1 in
      let off_weapon = each_item (take_off is_weapon) c in
      let out_armor = each_item (take_out is_armor_or_unit) c in
      let out_barrier = each_item (take_out is_barrier) c in
      let out_unit = set_slot ch (out_of_slot (slot c ch)) c in
      let off_mag = each_item (take_off is_mag_kind) c in
      let unit_or_none = if b₁ == 3 then out_unit else c in
      let not_armor = if b₁ == 2 then out_barrier else unit_or_none in
      let guards = if b₁ == 1 then out_armor else not_armor in
      let mag_or_none = if b₀ == 2 then off_mag else c in
      let not_weapon = if b₀ == 1 then guards else mag_or_none in
      if_both P (b₀ == 0) off_weapon not_weapon (off is_weapon) (
        if_both P (b₀ == 1) guards mag_or_none
          (if_both P (b₁ == 1) out_armor not_armor (out is_armor_or_unit) (
            if_both P (b₁ == 2) out_barrier unit_or_none (out is_barrier)
              (if_both P (b₁ == 3) out_unit c unit stay)))
          (if_both P (b₀ == 2) off_mag c (off is_mag_kind) stay))

  clear_kind-Lower : equipped (slot c ch) ≡ false → Lower c (clear_kind ch c)
  clear_kind-Lower off =
      clear_kind-cases (Lower c) (λ kind. each_item-take_off kind c)
        (λ kind. each_item-take_out kind c) (set_slot-Lower ch (out_of_slot (slot c ch)) c off)
        (Lower-refl c)

  clear_kind-slot :
      equipped (slot c ch) ≡ false
      → ch < length c.inventory
      → equipped (slot (clear_kind ch c) ch) ≡ false
  clear_kind-slot off inside =
      let n = c.inventory_use in
      let d = zero_inventory_item in
      clear_kind-cases (λ c'. equipped (slot c' ch) ≡ false)
        (λ kind.
          equipped-map_first (take_off kind) n ch c.inventory d
            (λ i h. (equipped-take_off kind i h).0) off)
        (λ kind.
          equipped-map_first (take_out kind) n ch c.inventory d
            (λ i h. (equipped-take_off kind i h).1) off)
        (ap equipped (get_or-set_self c.inventory ch (out_of_slot (slot c ch)) d inside) ∙ off) off

  -- What the `switch` takes off, by the kind of the item
  clear_kind-weapon : byte (slot c ch).item 0 ≡ 0 → wears (clear_kind ch c) is_weapon ≡ 0
  unfolding clear_kind
  clear_kind-weapon e = rw e (
      worn_count-map_first_none is_weapon (take_off is_weapon) c.inventory_use c.inventory
        (λ i. (worn-take_off is_weapon is_weapon i (λ h. h)).0))

  clear_kind-mag : byte (slot c ch).item 0 ≡ 2 → wears (clear_kind ch c) is_mag_kind ≡ 0
  unfolding clear_kind
  clear_kind-mag e = rw e (
      worn_count-map_first_none is_mag_kind (take_off is_mag_kind) c.inventory_use c.inventory
        (λ i. (worn-take_off is_mag_kind is_mag_kind i (λ h. h)).0))

  clear_kind-armor :
      (part : InventoryItem → Bool)
      → ((i : InventoryItem) → part i ≡ true → is_armor_or_unit i ≡ true)
      → byte (slot c ch).item 0 ≡ 1
      → byte (slot c ch).item 1 ≡ 1
      → wears (clear_kind ch c) part ≡ 0
  unfolding clear_kind
  clear_kind-armor part within e₀ e₁ =
      rw (e₀, e₁)
        (worn_count-map_first_none part (take_out is_armor_or_unit) c.inventory_use c.inventory
          (λ i. (worn-take_off is_armor_or_unit part i (within i)).1))

  clear_kind-barrier :
      byte (slot c ch).item 0 ≡ 1
      → byte (slot c ch).item 1 ≡ 2
      → wears (clear_kind ch c) is_barrier ≡ 0
  unfolding clear_kind
  clear_kind-barrier e₀ e₁ =
      rw (e₀, e₁)
        (worn_count-map_first_none is_barrier (take_out is_barrier) c.inventory_use c.inventory
          (λ i. (worn-take_off is_barrier is_barrier i (λ h. h)).1))

  clear_kind-unit :
      byte (slot c ch).item 0 ≡ 1
      → byte (slot c ch).item 1 ≡ 3
      → (j : ℕ) → ch ≢ j
      → slot (clear_kind ch c) j ≡ slot c j
  unfolding clear_kind
  clear_kind-unit e₀ e₁ j other =
      rw (e₀, e₁)
        (get_or-set_ne c.inventory ch j (out_of_slot (slot c ch)) zero_inventory_item other)

-- What goes with a weapon, an armor, a barrier or a mag: the whole kind, and with an armor the units
-- in it.
pub record KindOff (i : InventoryItem) (c : Client) : Type 0 where
  pub weapon : byte i.item 0 ≡ 0 → wears c is_weapon ≡ 0
  pub armor : byte i.item 0 ≡ 1 → byte i.item 1 ≡ 1 → wears c is_armor ≡ 0
  pub units : byte i.item 0 ≡ 1 → byte i.item 1 ≡ 1 → wears c is_unit ≡ 0
  pub barrier : byte i.item 0 ≡ 1 → byte i.item 1 ≡ 2 → wears c is_barrier ≡ 0
  pub mag : byte i.item 0 ≡ 2 → wears c is_mag_kind ≡ 0

armor_within : (i : InventoryItem) → is_armor i ≡ true → is_armor_or_unit i ≡ true
armor_within i h = ground arith

unit_within : (i : InventoryItem) → is_unit i ≡ true → is_armor_or_unit i ≡ true
unit_within i h = ground arith

-- An item of the inventory is taken off: nothing else is put on, so that the rule of the equipment
-- is kept where it held, and the item is off. After a weapon, an armor, a barrier or a mag nothing
-- of that kind is worn, and after an armor no unit either; after a unit the items in the other
-- slots are as before.
pub deequip_item-KindOff :
    (itemid ch : ℕ) (r : Room)
    → find_index (has_id itemid) r.client.inventory_use r.client.inventory ≡ some ch
    → let c' = (deequip_item itemid r).client in
      Lower r.client c'
      × (IsDressed r.client → IsDressed c')
      × (equipped (slot c' ch) ≡ false)
      × KindOff (slot r.client ch) c'
      × (byte (slot r.client ch).item 0 ≡ 1
          → byte (slot r.client ch).item 1 ≡ 3
          → (j : ℕ) → ch ≢ j
          → slot c' j ≡ slot r.client j)
unfolding deequip_item deequip_found
deequip_item-KindOff itemid ch r found =
    let c = r.client in
    let i = slot c ch in
    let c₁ = set_slot ch (taken_off i) c in
    let place =
      find_index-Found (has_id itemid) zero_inventory_item c.inventory_use c.inventory ch found in
    let here : slot c₁ ch ≡ taken_off i =
      get_or-set_self c.inventory ch (taken_off i) zero_inventory_item place.inside in
    let off : equipped (slot c₁ ch) ≡ false = ap equipped here ∙ equipped-taken_off i in
    let low : Lower c (clear_kind ch c₁) =
      Lower-trans c c₁ (clear_kind ch c₁) (set_slot-Lower ch (taken_off i) c (equipped-taken_off i))
        (clear_kind-Lower ch c₁ off) in
    let b₀ : byte (slot c₁ ch).item 0 ≡ byte i.item 0 = ap (λ i. byte i.item 0) here in
    let b₁ : byte (slot c₁ ch).item 1 ≡ byte i.item 1 = ap (λ i. byte i.item 1) here in
    rw (deequip_item, found)
      (
        low,
        λ h. IsDressed-Lower c (clear_kind ch c₁) h low,
        clear_kind-slot ch c₁ off
            (omega (arith, place.inside, length-set c.inventory ch (taken_off i))),
        record {
          weapon = λ e. clear_kind-weapon ch c₁ (b₀ ∙ e);
          armor = λ e₀ e₁. clear_kind-armor ch c₁ is_armor armor_within (b₀ ∙ e₀) (b₁ ∙ e₁);
          units = λ e₀ e₁. clear_kind-armor ch c₁ is_unit unit_within (b₀ ∙ e₀) (b₁ ∙ e₁);
          barrier = λ e₀ e₁. clear_kind-barrier ch c₁ (b₀ ∙ e₀) (b₁ ∙ e₁);
          mag = λ e. clear_kind-mag ch c₁ (b₀ ∙ e);
        },
        λ e₀ e₁ j other.
            clear_kind-unit ch c₁ (b₀ ∙ e₀) (b₁ ∙ e₁) j other
            ∙ get_or-set_ne c.inventory ch j (taken_off i) zero_inventory_item other,
      )
