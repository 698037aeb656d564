-- ===== src/Equip/Dressed/Slots.antt =====
-- The slot that `EquipItem` finds for a unit holds none.
use tethealla.Base.{
  ℕ, zero, suc, ◌<◌, ◌≡◌, ◌≢◌, refl, ap, ◌∙◌, sym, List, [], ◌∷◌, Bool, false, ◌&&◌, some, ltb,
  ◌==◌, if◌then◌else◌, arith, length, get_or, set, replicate, length-set, get_or-set_self,
  get_or-set_ne, Bool-cases, inl, inr, ==_iff,
}
use tethealla.Item.{InventoryItem, byte, equipped}
use tethealla.Game.{Client}
use tethealla.Game.Find.{find_index-Found}
use tethealla.Equip.{is_unit, mark_slots, free_slot}
use tethealla.Equip.Worn.{worn, worn_count}
use tethealla.Equip.Dressed.{wears, in_unit_slot}

-- The test of the loop, and the marks after one item
abbrev marks_slot : InventoryItem → Bool
marks_slot i = is_unit i && (equipped i && ltb (byte i.item 4) 4)

abbrev marked : InventoryItem → List ℕ → List ℕ
marked i marks = if marks_slot i then set marks (byte i.item 4) 1 else marks

length-marked : (i : InventoryItem) (marks : List ℕ) → length (marked i marks) ≡ length marks
length-marked i marks = elim (Bool-cases (marks_slot i)) [
  | inl e ↦ rw e (length-set marks (byte i.item 4) 1)
  | inr e ↦ rw e refl
]

not_marked :
    (i : InventoryItem) (k : ℕ) → marks_slot i ≡ false → k < 4 → worn (in_unit_slot k) i ≡ 0
not_marked i k e h = ground arith

elsewhere : (i : InventoryItem) (k : ℕ) → byte i.item 4 ≢ k → worn (in_unit_slot k) i ≡ 0
elsewhere i k h = ground arith

-- A slot that is not marked after an item was not before, and the item is not in it.
unmarked_step :
    (i : InventoryItem) (marks : List ℕ) (k : ℕ)
    → k < 4
    → length marks ≡ 4
    → get_or (marked i marks) k 1 ≡ 0
    → (get_or marks k 1 ≡ 0) × (worn (in_unit_slot k) i ≡ 0)
unmarked_step i marks k below size h = elim (Bool-cases (marks_slot i)) [
  | inr e ↦
      let h' : get_or marks k 1 ≡ 0 =
        ap (λ b. get_or (if b then set marks (byte i.item 4) 1 else marks) k 1) (sym e) ∙ h in
      (h', not_marked i k e below)
  | inl e ↦
      let h' : get_or (set marks (byte i.item 4) 1) k 1 ≡ 0 =
        ap (λ b. get_or (if b then set marks (byte i.item 4) 1 else marks) k 1) (sym e) ∙ h in
      elim (Bool-cases (byte i.item 4 == k)) [
        | inl here ↦
            let same = (==_iff (byte i.item 4) k).0 here in
            absurd (
              omega (
                arith,
                ap (λ b. get_or (set marks b 1) k 1) (sym same) ∙ h',
                get_or-set_self marks k 1 1 (omega arith),
              ))
        | inr away ↦
            let ne : byte i.item 4 ≢ k = λ same. ground arith in
            (sym (get_or-set_ne marks (byte i.item 4) k 1 1 ne) ∙ h', elsewhere i k ne)
      ]
]

unmarked :
    (n : ℕ) (items : List InventoryItem) (marks : List ℕ) (k : ℕ)
    → k < 4
    → length marks ≡ 4
    → get_or (mark_slots n items marks) k 1 ≡ 0
    → (get_or marks k 1 ≡ 0) × (worn_count (in_unit_slot k) n items ≡ 0)
unfolding mark_slots worn_count
unmarked zero items marks k below size h = (h, refl)
unmarked (suc n) [] marks k below size h = (h, refl)
unmarked (suc n) (i ∷ items) marks k below size h =
    let (before, rest) =
      unmarked n items (marked i marks) k below (length-marked i marks ∙ size) h in
    let (first, none) = unmarked_step i marks k below size before in
    (first, omega (arith, none, rest))

-- The slot that is found is one of the four, and no unit that is worn is in it.
pub free_slot_lem :
    (c : Client) (k : ℕ) → free_slot c ≡ some k → (k < 4) × (wears c (in_unit_slot k) ≡ 0)
unfolding free_slot
free_slot_lem c k e =
    let marks = mark_slots c.inventory_use c.inventory (replicate 4 0) in
    let place = find_index-Found (λ (mark : ℕ). mark == 0) 1 4 marks k e in
    let empty = (==_iff (get_or marks k 1) 0).0 place.passes in
    (place.below, (unmarked c.inventory_use c.inventory (replicate 4 0) k place.below refl empty).1)
