-- ===== src/Equip/Tests.antt =====
-- The theorems on equipment at a small inventory, and runs of the functions.
use tethealla.Base.{ℕ, ◌≤◌, ◌≡◌, ◌≢◌, refl, false, bit_and, arith}
use tethealla.Item.{byte, equipped}
use tethealla.Game.{Room, find_index, slot}
use tethealla.Inventory.Sample.{hunter, room, shaped}
use tethealla.Equip.{
  check_equip, equip_item, equip_found, make_room, unless_todc, equip_unit, free_slot, mark_slots,
  deequip_item,
}
use tethealla.Equip.Allowed.{includes, check_equip-includes}
use tethealla.Equip.Worn.{worn_count}
use tethealla.Equip.Dressed.{IsDressed, Lower, in_unit_slot}
use tethealla.Equip.Dressed.TakenOff.{KindOff, deequip_item-KindOff}
use tethealla.Equip.Dressed.PutOn.{Outcome, equip_item-IsDressed}

check_equip-includes_example :
    (check_equip 0x3f 0x29 ≡ includes 0x3f 0x29)
    × (check_equip (bit_and 0x3f 0x29) 0x29 ≡ check_equip 0x3f 0x29)
check_equip-includes_example = check_equip-includes 0x3f 0x29 (omega arith) (omega arith)

-- The hunter wears an armor and a unit in its second slot.
worn_slot : (k : ℕ) → worn_count (in_unit_slot k) 3 hunter.inventory ≤ 1
unfolding worn_count
worn_slot k = ground arith

dressed : IsDressed hunter
unfolding worn_count
dressed = record {
  weapon = omega arith;
  armor = omega arith;
  barrier = omega arith;
  mag = omega arith;
  unit_slots = worn_slot;
  placed = refl;
}

deequip_item-KindOff_example :
    let c' = (deequip_item 65537 room).client in
    Lower hunter c'
    × (IsDressed hunter → IsDressed c')
    × (equipped (slot c' 1) ≡ false)
    × KindOff (slot hunter 1) c'
    × (byte (slot hunter 1).item 0 ≡ 1
        → byte (slot hunter 1).item 1 ≡ 3
        → (j : ℕ) → 1 ≢ j
        → slot c' j ≡ slot hunter j)
unfolding find_index
deequip_item-KindOff_example = deequip_item-KindOff 65537 1 room refl

abbrev for_all : ℕ → ℕ
for_all k = 0xff

abbrev from_start : ℕ → ℕ
from_start k = 0

abbrev equip : ℕ → Room → Room
equip = equip_item (λ b k. 0xff) for_all from_start for_all from_start

equip_item-IsDressed_example :
    Outcome (λ b k. 0xff) for_all from_start for_all from_start hunter 2 (equip 65538 room).client
unfolding find_index
equip_item-IsDressed_example =
    equip_item-IsDressed (λ b k. 0xff) for_all from_start for_all from_start 65538 2 room refl refl
      shaped dressed

-- The unit in the second slot that is put on again goes to the first, which is free.
moves_on : byte (slot (equip 65538 room).client 2).item 4 ≡ 0
unfolding equip_item equip_found make_room unless_todc equip_unit free_slot mark_slots find_index
moves_on = refl
