-- ===== src/Equip/Dressed/Kinds.antt =====
-- When there is room for an item, by its kind.
use tethealla.Base.{ℕ, ◌<◌, ◌≡◌, ◌≢◌, ap, sym, ◌∙◌, arith}
use tethealla.Item.{InventoryItem, byte}
use tethealla.Game.{Client}
use tethealla.Equip.{is_weapon, is_barrier, is_mag_kind}
use tethealla.Equip.Dressed.{is_armor, in_unit_slot, wears, HasRoom}

-- There is room for an item of each kind.
module _ (x : InventoryItem) (c : Client) where
  pub HasRoom-weapon : byte x.item 0 ≡ 0 → wears c is_weapon ≡ 0 → HasRoom x c
  HasRoom-weapon b free = record {
    weapon = λ h. free;
    armor = λ h. ground arith;
    barrier = λ h. ground arith;
    mag = λ h. ground arith;
    unit_slots = λ k h. ground arith;
    placed = ground arith;
  }

  pub HasRoom-armor : byte x.item 0 ≡ 1 → byte x.item 1 ≡ 1 → wears c is_armor ≡ 0 → HasRoom x c
  HasRoom-armor b b' free = record {
    weapon = λ h. ground arith;
    armor = λ h. free;
    barrier = λ h. ground arith;
    mag = λ h. ground arith;
    unit_slots = λ k h. ground arith;
    placed = ground arith;
  }

  pub HasRoom-barrier : byte x.item 0 ≡ 1 → byte x.item 1 ≡ 2 → wears c is_barrier ≡ 0 → HasRoom x c
  HasRoom-barrier b b' free = record {
    weapon = λ h. ground arith;
    armor = λ h. ground arith;
    barrier = λ h. free;
    mag = λ h. ground arith;
    unit_slots = λ k h. ground arith;
    placed = ground arith;
  }

  pub HasRoom-mag : byte x.item 0 ≡ 2 → wears c is_mag_kind ≡ 0 → HasRoom x c
  HasRoom-mag b free = record {
    weapon = λ h. ground arith;
    armor = λ h. ground arith;
    barrier = λ h. ground arith;
    mag = λ h. free;
    unit_slots = λ k h. ground arith;
    placed = ground arith;
  }

  pub HasRoom-unit :
      (k : ℕ)
      → byte x.item 0 ≡ 1
      → byte x.item 1 ≡ 3
      → byte x.item 4 ≡ k
      → k < 4
      → wears c (in_unit_slot k) ≡ 0
      → HasRoom x c
  HasRoom-unit k b b' s below free = record {
    weapon = λ h. ground arith;
    armor = λ h. ground arith;
    barrier = λ h. ground arith;
    mag = λ h. ground arith;
    unit_slots = λ j h.
        let same : k ≡ j = ground arith in ap (λ j. wears c (in_unit_slot j)) (sym same) ∙ free;
    placed = ground arith;
  }

  -- An item of no kind that is counted
  pub HasRoom-other :
      byte x.item 0 ≢ 0
      → byte x.item 0 ≢ 2
      → (byte x.item 0 ≡ 1 → (byte x.item 1 ≢ 1) × (byte x.item 1 ≢ 2) × (byte x.item 1 ≢ 3))
      → HasRoom x c
  HasRoom-other n₀ n₂ n₁ = record {
    weapon = λ h. ground arith;
    armor = λ h. ground arith;
    barrier = λ h. ground arith;
    mag = λ h. ground arith;
    unit_slots = λ k h. ground arith;
    placed = ground arith;
  }
