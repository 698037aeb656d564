-- ===== src/Equip/Dressed/Switch.antt =====
-- The `switch` of `EquipItem` leaves room for the item, whatever its kind.
use tethealla.Base.{
  ℕ, ◌<◌, ◌≡◌, ◌≢◌, inl, inr, sym, ◌∙◌, Bool, true, false, not, ◌&&◌, bit_and, ltb, ◌==◌,
  if◌then◌else◌, arith, length, subst, Bool-cases, ==_iff,
}
use tethealla.Item.{InventoryItem, byte}
use tethealla.Game.{Client, Room, slot}
use tethealla.Equip.{
  is_weapon, is_armor_or_unit, is_barrier, is_mag_kind, put_on, take_off, take_out, each_item,
  disallowed, unless_todc, equip_unit, make_room, check_equip,
}
use tethealla.Equip.Worn.{worn-take_off, worn_count-map_first_none, worn_count-set_le}
use tethealla.Equip.Dressed.{is_armor, Lower, HasRoom}
use tethealla.Equip.Dressed.TakenOff.{Lower-refl, each_item-take_off, each_item-take_out}
use tethealla.Equip.Dressed.Ready.{Ready, at, cleared-Ready, guarded-Ready, kind_kept, unit-Ready}
use tethealla.Equip.Dressed.Kinds.{
  HasRoom-weapon, HasRoom-armor, HasRoom-barrier, HasRoom-mag, HasRoom-other,
}

module _ (weapon_equip_table : ℕ → ℕ → ℕ)
    (armor_equip_table armor_level_table barrier_equip_table barrier_level_table : ℕ → ℕ) where
  abbrev pub weapon_permitted : InventoryItem → Client → Bool
  weapon_permitted i c =
      check_equip (weapon_equip_table (byte i.item 1) (byte i.item 2)) c.equip_flags

  abbrev pub armor_permitted : InventoryItem → Client → Bool
  armor_permitted i c =
      check_equip (armor_equip_table (byte i.item 2)) c.equip_flags
      && not (ltb c.level (armor_level_table (byte i.item 2)))

  abbrev pub barrier_permitted : InventoryItem → Client → Bool
  barrier_permitted i c =
      check_equip (bit_and (barrier_equip_table (byte i.item 2)) c.equip_flags) c.equip_flags
      && not (ltb c.level (barrier_level_table (byte i.item 2)))

  -- What the character has to fulfil to wear the item
  abbrev pub permitted : InventoryItem → Client → Bool
  permitted i c =
      if byte i.item 0 == 0
      then weapon_permitted i c
      else if byte i.item 0 == 1
      then (if byte i.item 1 == 1
          then armor_permitted i c
          else if byte i.item 1 == 2
          then barrier_permitted i c
          else true)
      else true

  abbrev pub room_made : ℕ → Room → Room
  room_made =
      make_room weapon_equip_table armor_equip_table armor_level_table barrier_equip_table
        barrier_level_table

  module _ (ch : ℕ) (r : Room) (alive : r.client.todc ≡ false)
      (inside : ch < length r.client.inventory)
      (shaped : 5 < length (slot r.client ch).item.data_bytes) where
    abbrev pub Allowed : Type 0
    Allowed = permitted (slot r.client ch) r.client ≡ true

    abbrev i : InventoryItem
    i = slot r.client ch

    -- After a loop and its guard
    loop-Ready :
        (f : InventoryItem → InventoryItem) (allowed : Bool)
        → (room_made ch r ≡ unless_todc (each_item f) (disallowed allowed r))
        → permitted i r.client ≡ allowed
        → Lower r.client (each_item f r.client)
        → HasRoom (at Allowed ch r alive (each_item f r.client)) (each_item f r.client)
        → Ready Allowed r.client ch (room_made ch r).client
    loop-Ready f allowed step rule low room =
        subst (λ r'. Ready Allowed r.client ch r'.client) (sym step)
          (guarded-Ready Allowed ch r alive f allowed
            (λ ok. cleared-Ready Allowed ch r alive f (rule ∙ ok) inside low room))

    weapon-Ready : byte i.item 0 ≡ 0 → Ready Allowed r.client ch (room_made ch r).client
    unfolding make_room
    weapon-Ready e =
        let f = take_off is_weapon in
        let c₁ = each_item f r.client in
        let off =
          worn_count-map_first_none is_weapon f r.client.inventory_use r.client.inventory
            (λ i. (worn-take_off is_weapon is_weapon i (λ h. h)).0) in
        loop-Ready f (weapon_permitted i r.client) (rw (make_room, e)) (rw e)
          (each_item-take_off is_weapon r.client)
          (HasRoom-weapon (put_on (slot c₁ ch)) c₁
            ((kind_kept Allowed ch r alive is_weapon 0 (λ h. omega arith)).0 ∙ e) off)

    armor-Ready :
        byte i.item 0 ≡ 1 → byte i.item 1 ≡ 1 → Ready Allowed r.client ch (room_made ch r).client
    unfolding make_room
    armor-Ready e e' =
        let f = take_out is_armor_or_unit in
        let c₁ = each_item f r.client in
        let off =
          worn_count-map_first_none is_armor f r.client.inventory_use r.client.inventory
            (λ i. (worn-take_off is_armor_or_unit is_armor i (λ h. ground arith)).1) in
        let kept = kind_kept Allowed ch r alive is_armor_or_unit in
        loop-Ready f (armor_permitted i r.client) (rw (make_room, e, e')) (rw (e, e'))
          (each_item-take_out is_armor_or_unit r.client)
          (HasRoom-armor (put_on (slot c₁ ch)) c₁ ((kept 0 (λ h. omega arith)).1 ∙ e)
            ((kept 1 (λ h. omega arith)).1 ∙ e') off)

    barrier-Ready :
        byte i.item 0 ≡ 1 → byte i.item 1 ≡ 2 → Ready Allowed r.client ch (room_made ch r).client
    unfolding make_room
    barrier-Ready e e' =
        let f = take_out is_barrier in
        let c₁ = each_item f r.client in
        let off =
          worn_count-map_first_none is_barrier f r.client.inventory_use r.client.inventory
            (λ i. (worn-take_off is_barrier is_barrier i (λ h. h)).1) in
        let kept = kind_kept Allowed ch r alive is_barrier in
        loop-Ready f (barrier_permitted i r.client) (rw (make_room, e, e')) (rw (e, e'))
          (each_item-take_out is_barrier r.client)
          (HasRoom-barrier (put_on (slot c₁ ch)) c₁ ((kept 0 (λ h. omega arith)).1 ∙ e)
            ((kept 1 (λ h. omega arith)).1 ∙ e') off)

    mag-Ready : byte i.item 0 ≡ 2 → Ready Allowed r.client ch (room_made ch r).client
    unfolding make_room
    mag-Ready e =
        let f = take_off is_mag_kind in
        let c₁ = each_item f r.client in
        let off =
          worn_count-map_first_none is_mag_kind f r.client.inventory_use r.client.inventory
            (λ i. (worn-take_off is_mag_kind is_mag_kind i (λ h. h)).0) in
        let step : room_made ch r ≡ record r { client = c₁ } = rw (make_room, e) in
        subst (λ r'. Ready Allowed r.client ch r'.client) (sym step)
          (cleared-Ready Allowed ch r alive f (rw e) inside
            (each_item-take_off is_mag_kind r.client)
            (HasRoom-mag (put_on (slot c₁ ch)) c₁
              ((kind_kept Allowed ch r alive is_mag_kind 0 (λ h. omega arith)).0 ∙ e) off))

    unit_kind-Ready :
        byte i.item 0 ≡ 1 → byte i.item 1 ≡ 3 → Ready Allowed r.client ch (room_made ch r).client
    unfolding make_room
    unit_kind-Ready e e' =
        let step : room_made ch r ≡ equip_unit ch r = rw (make_room, e, e') in
        subst (λ r'. Ready Allowed r.client ch r'.client) (sym step)
          (unit-Ready Allowed ch r alive (rw (e, e')) e e' inside shaped)

    -- An item of another kind: nothing is done.
    other-Ready :
        permitted i r.client ≡ true
        → HasRoom (put_on i) r.client
        → (room_made ch r ≡ r)
        → Ready Allowed r.client ch (room_made ch r).client
    other-Ready ok room step =
        subst (λ r'. Ready Allowed r.client ch r'.client) (sym step)
          (inr (
            alive,
            inside,
            ok,
            (
              r.client,
              Lower-refl r.client,
              room,
              λ kind.
                  worn_count-set_le kind r.client.inventory_use ch r.client.inventory (put_on i),
            ),
          ))

    is_not : (b k : ℕ) → (b == k) ≡ false → b ≢ k
    is_not b k h e = ground arith

    guard_other-Ready :
        byte i.item 0 ≡ 1
        → (byte i.item 1 == 1) ≡ false
        → (byte i.item 1 == 2) ≡ false
        → (byte i.item 1 == 3) ≡ false
        → Ready Allowed r.client ch (room_made ch r).client
    unfolding make_room
    guard_other-Ready e n₁ n₂ n₃ =
        other-Ready (rw (e, n₁, n₂))
          (HasRoom-other (put_on i) r.client (λ h. omega (arith, e, h)) (λ h. omega (arith, e, h))
            (λ h. (is_not _ _ n₁, is_not _ _ n₂, is_not _ _ n₃)))
          (rw (make_room, e, n₁, n₂, n₃))

    tool-Ready :
        (byte i.item 0 == 0) ≡ false
        → (byte i.item 0 == 1) ≡ false
        → (byte i.item 0 == 2) ≡ false
        → Ready Allowed r.client ch (room_made ch r).client
    unfolding make_room
    tool-Ready n₀ n₁ n₂ =
        other-Ready (rw (n₀, n₁))
          (HasRoom-other (put_on i) r.client (is_not _ _ n₀) (is_not _ _ n₂)
            (λ h. absurd (is_not _ _ n₁ h)))
          (rw (make_room, n₀, n₁, n₂))

    pub make_room-Ready : Ready Allowed r.client ch (room_made ch r).client
    make_room-Ready = elim (Bool-cases (byte i.item 0 == 0)) [
      | inl e₀ ↦ weapon-Ready ((==_iff (byte i.item 0) 0).0 e₀)
      | inr n₀ ↦ elim (Bool-cases (byte i.item 0 == 1)) [
        | inr n₁ ↦ elim (Bool-cases (byte i.item 0 == 2)) [
          | inl e₂ ↦ mag-Ready ((==_iff (byte i.item 0) 2).0 e₂)
          | inr n₂ ↦ tool-Ready n₀ n₁ n₂
        ]
        | inl g ↦
            let e = (==_iff (byte i.item 0) 1).0 g in
            elim (Bool-cases (byte i.item 1 == 1)) [
              | inl e₁ ↦ armor-Ready e ((==_iff (byte i.item 1) 1).0 e₁)
              | inr n₁ ↦ elim (Bool-cases (byte i.item 1 == 2)) [
                | inl e₂ ↦ barrier-Ready e ((==_iff (byte i.item 1) 2).0 e₂)
                | inr n₂ ↦ elim (Bool-cases (byte i.item 1 == 3)) [
                  | inl e₃ ↦ unit_kind-Ready e ((==_iff (byte i.item 1) 3).0 e₃)
                  | inr n₃ ↦ guard_other-Ready e n₁ n₂ n₃
                ]
              ]
            ]
      ]
    ]
