-- ===== src/Inventory/Add/Slots.antt =====
-- What a write of a slot adds to the inventory.
use tethealla.Base.{
  ℕ, zero, suc, ◌+◌, ◌≤◌, ◌<◌, ◌≡◌, refl, ◌∙◌, List, [], ◌∷◌, ◌++◌, Bool, true, ◌||◌, inl, inr,
  arith, leb, if◌then◌else◌, length, set, get_or, length-set, length-take, Bool-cases, ◌%◌, ==_refl,
  get_or-set_ne, get_or-set_self,
}
use tethealla.Item.{Item, InventoryItem, zero_inventory_item, set_byte, stackable, compare_item}
use tethealla.Game.{Client, Room, slot}
use tethealla.Inventory.CleanUp.{max_inventory}
use tethealla.Inventory.CleanUp.Packed.{
  IsTidy, items, IsPacked-le, set_next-IsPacked, take-set_next,
}
use tethealla.Inventory.Units.{
  units, total, total-one, total-set, total-append, get_or-take, units_stack, units_self,
}
use tethealla.Inventory.Delete.Content.{set_slot-IsTidy, in_use_of_IsPacked}
use tethealla.Inventory.Delete.Stack.{ne_test}
use tethealla.Inventory.Add.{stack_bytes, give_item, stack_of, set_stack}

-- Every item has its stack count byte.
abbrev pub IsShaped : List InventoryItem → Type 0
IsShaped [] = Unit
IsShaped (i ∷ slots) = (5 < length i.item.data_bytes) × IsShaped slots

pub IsShaped-at :
    (xs : List InventoryItem) (k : ℕ) (d : InventoryItem)
    → IsShaped xs
    → k < length xs
    → 5 < length (get_or xs k d).item.data_bytes
IsShaped-at [] k d h lt = absurd (omega arith)
IsShaped-at (x ∷ xs) zero d h lt = h.0
IsShaped-at (x ∷ xs) (suc k) d h lt = IsShaped-at xs k d h.1 (omega arith)

pub stackable_bound : (d : List ℕ) → stackable d ≤ 99
unfolding stackable
stackable_bound d = ground arith

-- The slot that an item is given.
abbrev pub fresh : Item → InventoryItem
fresh i = record { in_use = 1; flags = 0; item = i }

-- What a function that may add `n` units of a kind has done to the inventory.
pub record Adds (kind n : ℕ) (c : Client) (out : Room × Bool) : Type 0 where
  pub tidy : IsTidy out.0.client
  pub sum : total kind (items out.0.client) ≡ total kind (items c) + (if out.1 then n else 0)

-- The next slot is written, and the count goes up by one.
pub next_slot :
    (v : InventoryItem) (c : Client)
    → IsTidy c
    → c.inventory_use < max_inventory
    → 0 < v.in_use
    → let c' = record c {
      inventory = set c.inventory c.inventory_use v;
      inventory_use = c.inventory_use + 1;
    } in
      IsTidy c' × (items c' ≡ items c ++ (v ∷ []))
next_slot v c t room used =
    let inside : c.inventory_use < length c.inventory = omega (arith, t.size) in
    let one : c.inventory_use + 1 ≡ suc c.inventory_use = omega arith in
    (
      record {
        size = length-set c.inventory c.inventory_use v ∙ t.size;
        packed = rw one (set_next-IsPacked c.inventory_use c.inventory v t.packed inside used);
      },
      rw one (take-set_next c.inventory_use c.inventory v inside),
    )

pub give_item-Adds :
    (kind : ℕ) (i : Item) (r : Room)
    → IsTidy r.client
    → Adds kind (units kind (fresh i)) r.client (give_item i r)
      × (((give_item i r).1 || (give_item i r).0.client.todc) ≡ true)
unfolding give_item
give_item-Adds kind i r v = elim (Bool-cases (leb max_inventory r.client.inventory_use)) [
  | inl full ↦
      rw full
        (record { tidy = record { size = v.size; packed = v.packed }; sum = omega arith }, refl)
  | inr room ↦
      let (tidy, content) = next_slot (fresh i) r.client v (ground arith) (omega arith) in
      rw room (
        record {
          tidy = tidy;
          sum = rw content (
              omega (
                arith,
                total-append kind (items r.client) (fresh i ∷ []),
                total-one kind (fresh i),
              ));
        },
        refl,
      )
]

-- A stack of a slot that is written anew.
pub set_stack-Adds :
    (ch n count : ℕ) (c : Client)
    → IsTidy c
    → IsShaped c.inventory
    → ch < c.inventory_use
    → 0 < n
    → n ≡ stack_of c ch + count
    → let kind = compare_item (slot c ch).item.data_bytes in
      IsTidy (set_stack ch n c)
      × (total kind (items (set_stack ch n c)) ≡ total kind (items c) + count)
set_stack-Adds ch n count c v shaped lt pos e =
    let i = slot c ch in
    let i' = record i { item = set_byte i.item 5 n } in
    let kind = compare_item i.item.data_bytes in
    let use_le = IsPacked-le c.inventory_use c.inventory v.packed in
    let (tidy, content) =
      set_slot-IsTidy ch i' c v lt
        (in_use_of_IsPacked c.inventory_use c.inventory ch zero_inventory_item v.packed lt) in
    let held : units kind (get_or (items c) ch zero_inventory_item) ≡ stack_of c ch =
      rw (get_or-take c.inventory_use c.inventory ch zero_inventory_item lt) (units_self i) in
    (
      tidy,
      rw content (
          omega (
            arith,
            total-set kind (items c) ch i' zero_inventory_item
                (omega (arith, lt, use_le, length-take c.inventory_use c.inventory)),
            held,
            units_stack i n
                (IsShaped-at c.inventory ch zero_inventory_item shaped (omega (arith, lt, use_le)))
                pos,
          )),
    )

-- An item given as a stack counts for the units.
pub units-stack_bytes :
    (count : ℕ) (i : Item)
    → 0 < count
    → count < 256
    → 5 < length i.data_bytes
    → units
        (compare_item i.data_bytes)
        (fresh (record i { data_bytes = stack_bytes count i.data_bytes }))
      ≡ count
units-stack_bytes count i pos small bytes =
    let d = i.data_bytes in
    let d₄ = set d 4 0 in
    let d₅ = set d₄ 5 (count % 256) in
    let d₆ = set d₅ 6 0 in
    let kept : (k : ℕ) → k < 4 → get_or (set d₆ 7 0) k 0 ≡ get_or d k 0 = λ k lt.
      get_or-set_ne d₆ 7 k 0 0 (omega arith)
      ∙ get_or-set_ne d₅ 6 k 0 0 (omega arith)
      ∙ get_or-set_ne d₄ 5 k (count % 256) 0 (omega arith)
      ∙ get_or-set_ne d 4 k 0 0 (omega arith) in
    let same : compare_item (set d₆ 7 0) ≡ compare_item d =
      omega (arith, kept 0 (omega arith), kept 1 (omega arith), kept 2 (omega arith)) in
    let stack : get_or (set d₆ 7 0) 5 0 ≡ count =
      get_or-set_ne d₆ 7 5 0 0 (omega arith)
      ∙ get_or-set_ne d₅ 6 5 0 0 (omega arith)
      ∙ get_or-set_self d₄ 5 (count % 256) 0 (omega (arith, length-set d 4 0))
      ∙ omega arith in
    rw (same, ==_refl (compare_item d), stack, ne_test count pos)
