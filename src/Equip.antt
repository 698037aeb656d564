-- ===== src/Equip.antt =====
-- `check_equip`, `EquipItem` and `DeequipItem` of ship_server.c: what a character wears. The tables
-- of what each class may wear, and from which level on, are read at start; they are parameters.
pub mod Flags
pub mod Allowed
pub mod Worn
pub mod Dressed
mod Tests
use tethealla.Base.{
  ℕ, zero, suc, ◌+◌, ◌^◌, List, [], ◌∷◌, Bool, true, false, not, ◌&&◌, ◌||◌, Option, none, some,
  bit_and, bit_or, ltb, ◌==◌, if◌then◌else◌, get_or, set, replicate,
}
use tethealla.Item.{InventoryItem, byte, set_byte, equipped}
use tethealla.Game.{Client, Room, disconnect, find_index, map_first, slot, set_slot, has_id}

-- `cl_flags & (1 << ch)`
abbrev pub flag_at : ℕ → ℕ → Bool
flag_at flags ch = not (bit_and flags (2 ^ ch) == 0)

-- The loop of `check_equip`, with the rounds left
unfoldable pub check_flags : ℕ → ℕ → ℕ → ℕ → Bool
check_flags zero ch eq_flags cl_flags = true
check_flags (suc n) ch eq_flags cl_flags =
    let rest = check_flags n (ch + 1) eq_flags cl_flags in
    if flag_at cl_flags ch && not (flag_at eq_flags ch) then false else rest

-- `check_equip`
unfoldable pub check_equip : ℕ → ℕ → Bool
unfolding check_flags
check_equip eq_flags cl_flags = check_flags 8 0 eq_flags cl_flags

-- `flags &= ~(0x08)` and `flags |= 0x08`
abbrev pub taken_off : InventoryItem → InventoryItem
taken_off i = record i { flags = bit_and i.flags 0xffff_fff7 }

abbrev pub put_on : InventoryItem → InventoryItem
put_on i = record i { flags = bit_or i.flags 0x08 }

-- `item.data[4] = 0x00`
abbrev pub out_of_slot : InventoryItem → InventoryItem
out_of_slot i = record i { item = set_byte i.item 4 0 }

-- The kinds that the loops look for
abbrev pub is_weapon : InventoryItem → Bool
is_weapon i = byte i.item 0 == 0

abbrev pub is_armor_or_unit : InventoryItem → Bool
is_armor_or_unit i = byte i.item 0 == 1 && not (byte i.item 1 == 2)

abbrev pub is_barrier : InventoryItem → Bool
is_barrier i = byte i.item 0 == 1 && byte i.item 1 == 2

abbrev pub is_unit : InventoryItem → Bool
is_unit i = byte i.item 0 == 1 && byte i.item 1 == 3

abbrev pub is_mag_kind : InventoryItem → Bool
is_mag_kind i = byte i.item 0 == 2

-- The bodies of the loops that take off what is worn of a kind; `out` where the slot is reset too
unfoldable pub take_off : (InventoryItem → Bool) → InventoryItem → InventoryItem
take_off kind i = if kind i && equipped i then taken_off i else i

unfoldable pub take_out : (InventoryItem → Bool) → InventoryItem → InventoryItem
take_out kind i = if kind i && equipped i then out_of_slot (taken_off i) else i

-- `for (ch2 = 0; ch2 < inventoryUse; ch2++)` with such a body
abbrev pub each_item : (InventoryItem → InventoryItem) → Client → Client
each_item f c = record c { inventory = map_first f c.inventory_use c.inventory }

-- The loop that marks the slots of the armor that hold a unit
unfoldable pub mark_slots : ℕ → List InventoryItem → List ℕ → List ℕ
mark_slots zero items marks = marks
mark_slots (suc n) [] marks = marks
mark_slots (suc n) (i ∷ items) marks = mark_slots n items (
    if is_unit i && (equipped i && ltb (byte i.item 4) 4)
    then set marks (byte i.item 4) 1
    else marks)

-- `found_slot`: the first slot that holds none
unfoldable pub free_slot : Client → Option ℕ
free_slot c =
    find_index (λ mark. mark == 0) 4 (mark_slots c.inventory_use c.inventory (replicate 4 0))

-- `Send1A ("\"God/Equip\" is disallowed.", client); client->todc = 1;`
abbrev pub disallowed : Bool → Room → Room
disallowed allowed r = if allowed then r else disconnect "\"God/Equip\" is disallowed." r

-- `if (!client->todc)` and a change of the client
unfoldable pub unless_todc : (Client → Client) → Room → Room
unless_todc f r = if r.client.todc then r else record r { client = f r.client }

-- The case of a unit
unfoldable pub equip_unit : ℕ → Room → Room
equip_unit ch r = elim (free_slot r.client) [
  | some found ↦
      let i = slot r.client ch in
      record r { client = set_slot ch (record i { item = set_byte i.item 4 found }) r.client }
  | none ↦
      disconnect "There are no free slots on your armor.  Equip unit failed."
        (record r { client = set_slot ch (taken_off (slot r.client ch)) r.client })
]

module _ (weapon_equip_table : ℕ → ℕ → ℕ)
    (armor_equip_table armor_level_table barrier_equip_table barrier_level_table : ℕ → ℕ) where
  -- The requirements of an armor and of a barrier
  abbrev armor_allowed : ℕ → Client → Bool
  armor_allowed k c =
      check_equip (armor_equip_table k) c.equip_flags && not (ltb c.level (armor_level_table k))

  abbrev barrier_allowed : ℕ → Client → Bool
  barrier_allowed k c =
      check_equip (bit_and (barrier_equip_table k) c.equip_flags) c.equip_flags
      && not (ltb c.level (barrier_level_table k))

  -- The `switch` on the kind of the item
  unfoldable pub make_room : ℕ → Room → Room
  make_room ch r =
      let i = (slot r.client ch).item in
      let c = r.client in
      if byte i 0 == 0
      then unless_todc (each_item (take_off is_weapon))
          (disallowed (check_equip (weapon_equip_table (byte i 1) (byte i 2)) c.equip_flags) r)
      else if byte i 0 == 1
      then (if byte i 1 == 1
          then unless_todc (each_item (take_out is_armor_or_unit))
              (disallowed (armor_allowed (byte i 2) c) r)
          else if byte i 1 == 2
          then unless_todc (each_item (take_out is_barrier))
              (disallowed (barrier_allowed (byte i 2) c) r)
          else if byte i 1 == 3
          then equip_unit ch r
          else r)
      else if byte i 0 == 2
      then record r { client = each_item (take_off is_mag_kind) c }
      else r

  -- What is done where the loop has found the item.
  unfoldable pub equip_found : ℕ → Room → Room
  equip_found ch r = unless_todc (λ c. set_slot ch (put_on (slot c ch)) c) (make_room ch r)

  -- `EquipItem`
  unfoldable pub equip_item : ℕ → Room → Room
  equip_item itemid r =
      elim (find_index (has_id itemid) r.client.inventory_use r.client.inventory) [
        | none ↦ disconnect "Could not find item to equip." r
        | some ch ↦ equip_found ch r
      ]

-- The `switch` of `DeequipItem` on the kind of the item in the slot `ch`
unfoldable pub clear_kind : ℕ → Client → Client
clear_kind ch c =
    let i = slot c ch in
    if byte i.item 0 == 0
    then each_item (take_off is_weapon) c
    else if byte i.item 0 == 1
    then (if byte i.item 1 == 1
        then each_item (take_out is_armor_or_unit) c
        else if byte i.item 1 == 2
        then each_item (take_out is_barrier) c
        else if byte i.item 1 == 3
        then set_slot ch (out_of_slot i) c
        else c)
    else if byte i.item 0 == 2
    then each_item (take_off is_mag_kind) c
    else c

-- What is done where the loop has found the item.
unfoldable pub deequip_found : ℕ → Client → Client
deequip_found ch c = clear_kind ch (set_slot ch (taken_off (slot c ch)) c)

-- `DeequipItem`
unfoldable pub deequip_item : ℕ → Room → Room
deequip_item itemid r =
    elim (find_index (has_id itemid) r.client.inventory_use r.client.inventory) [
      | none ↦ disconnect "Could not find item to unequip." r
      | some ch ↦ record r { client = deequip_found ch r.client }
    ]
