-- ===== src/Equip/Dressed.antt =====
-- The rule that equipment keeps: one weapon, one armor, one barrier and one mag at most, and the
-- units in four slots of their own.
pub mod TakenOff
pub mod Slots
pub mod Kinds
pub mod Ready
pub mod Switch
pub mod PutOn
use tethealla.Base.{
  ℕ, ◌+◌, ◌≤◌, ◌≡◌, refl, Bool, true, false, not, ◌&&◌, ltb, ◌==◌, arith, Bool-cases, inl, inr,
}
use tethealla.Item.{InventoryItem, byte, equipped}
use tethealla.Game.{Client}
use tethealla.Equip.{is_weapon, is_barrier, is_unit, is_mag_kind}
use tethealla.Equip.Worn.{worn, worn_count}

abbrev pub is_armor : InventoryItem → Bool
is_armor i = byte i.item 0 == 1 && byte i.item 1 == 1

-- A unit in the slot `k`, and one that says it is in a slot that there is not
abbrev pub in_unit_slot : ℕ → InventoryItem → Bool
in_unit_slot k i = is_unit i && byte i.item 4 == k

abbrev pub is_misplaced : InventoryItem → Bool
is_misplaced i = is_unit i && not (ltb (byte i.item 4) 4)

-- The number of items of a kind that the character wears
abbrev pub wears : Client → (InventoryItem → Bool) → ℕ
wears c kind = worn_count kind c.inventory_use c.inventory

pub record IsDressed (c : Client) : Type 0 where
  pub weapon : wears c is_weapon ≤ 1
  pub armor : wears c is_armor ≤ 1
  pub barrier : wears c is_barrier ≤ 1
  pub mag : wears c is_mag_kind ≤ 1
  pub unit_slots : (k : ℕ) → wears c (in_unit_slot k) ≤ 1
  pub placed : wears c is_misplaced ≡ 0

-- Nothing is put on.
abbrev pub Lower : Client → Client → Type 0
Lower c c' = (kind : InventoryItem → Bool) → wears c' kind ≤ wears c kind

pub IsDressed-Lower : (c c' : Client) → IsDressed c → Lower c c' → IsDressed c'
IsDressed-Lower c c' h low = record {
  weapon = omega (arith, low is_weapon, h.weapon);
  armor = omega (arith, low is_armor, h.armor);
  barrier = omega (arith, low is_barrier, h.barrier);
  mag = omega (arith, low is_mag_kind, h.mag);
  unit_slots = λ k. omega (arith, low (in_unit_slot k), h.unit_slots k);
  placed = omega (arith, low is_misplaced, h.placed);
}

-- Nothing but the item is put on.
abbrev pub Adds : InventoryItem → Client → Client → Type 0
Adds i c c' = (kind : InventoryItem → Bool) → wears c' kind ≤ wears c kind + worn kind i

-- There is room for the item: nothing of its kind is worn.
pub record HasRoom (i : InventoryItem) (c : Client) : Type 0 where
  pub weapon : is_weapon i ≡ true → wears c is_weapon ≡ 0
  pub armor : is_armor i ≡ true → wears c is_armor ≡ 0
  pub barrier : is_barrier i ≡ true → wears c is_barrier ≡ 0
  pub mag : is_mag_kind i ≡ true → wears c is_mag_kind ≡ 0
  pub unit_slots : (k : ℕ) → in_unit_slot k i ≡ true → wears c (in_unit_slot k) ≡ 0
  pub placed : is_misplaced i ≡ false

worn-le-one : (kind : InventoryItem → Bool) (i : InventoryItem) → worn kind i ≤ 1
worn-le-one kind i = ground arith

worn-kind_false :
    (kind : InventoryItem → Bool) (i : InventoryItem) → kind i ≡ false → worn kind i ≡ 0
worn-kind_false kind i h = rw h refl

one_more :
    (kind : InventoryItem → Bool) (i : InventoryItem) (before after : ℕ)
    → after ≤ before + worn kind i
    → before ≤ 1
    → (kind i ≡ true → before ≡ 0)
    → after ≤ 1
one_more kind i before after adds one none = elim (Bool-cases (kind i)) [
  | inl e ↦ omega (arith, none e, worn-le-one kind i)
  | inr e ↦ omega (arith, worn-kind_false kind i e)
]

pub IsDressed-Adds :
    (i : InventoryItem) (c c' : Client) → IsDressed c → HasRoom i c → Adds i c c' → IsDressed c'
IsDressed-Adds i c c' h room adds = record {
  weapon = one_more is_weapon i _ _ (adds is_weapon) h.weapon room.weapon;
  armor = one_more is_armor i _ _ (adds is_armor) h.armor room.armor;
  barrier = one_more is_barrier i _ _ (adds is_barrier) h.barrier room.barrier;
  mag = one_more is_mag_kind i _ _ (adds is_mag_kind) h.mag room.mag;
  unit_slots = λ k.
      one_more (in_unit_slot k) i _ _ (adds (in_unit_slot k)) (h.unit_slots k) (room.unit_slots k);
  placed = omega (arith, adds is_misplaced, h.placed, worn-kind_false is_misplaced i room.placed);
}
