-- ===== src/Bank/Deposit.antt =====
-- What the steps of `DepositIntoBank` of a stack do to the bank and to the inventory.
pub mod Total
use tethealla.Base.{
  ℕ, ◌+◌, ◌%◌, ◌^◌, ◌≤◌, ◌<◌, ◌≡◌, refl, sym, ap, ◌∙◌, Bool, true, false, none, some, inl, inr,
  arith, ltb, leb, ◌==◌, if◌then◌else◌, length, take, set, get_or, get_or-set_self, get_or-set_ne,
  Bool-cases, Option-cases, ==_iff, ==_refl, le→ltb, leb→le, ltb→lt,
}
use tethealla.Item.{
  Item, zero_inventory_item, empty_bank_item, byte, stackable, at_least_one, compare_item,
  is_worn_armor,
}
use tethealla.Game.{Client, Room, find_index, slot, has_id}
use tethealla.Game.Find.{find_index-Found}
use tethealla.Inventory.CleanUp.{clean_up_inventory}
use tethealla.Inventory.CleanUp.Packed.{IsTidy, items}
use tethealla.Inventory.Units.{total, compare_item-set}
use tethealla.Inventory.Delete.{delete_slot, delete_from_stack}
use tethealla.Inventory.Delete.Content.{stack_not_armor}
use tethealla.Inventory.Delete.Stack
use tethealla.Inventory.Add.Slots.{stackable_bound}
use tethealla.Bank.{
  place, bank_stack, same_bank_kind, bank_onto, banked_item, bank_next, bank_item, unused,
  deposit_stack, deposit_found, deposit,
}
use tethealla.Bank.Units.{bank_units, bank_total, bank_total-set, bank_total-set_next}

-- The kind of an item stays where its bytes from the fourth on are cleared.
banked_kind :
    (limit count : ℕ) (i : Item)
    → 0 < limit
    → (compare_item (banked_item limit count i).data_bytes ≡ compare_item i.data_bytes)
      × ((banked_item limit count i).bank_count ≡ (0x10000 + count) % 2 ^ 32)
unfolding banked_item
banked_kind limit count i h =
    let d = i.data_bytes in
    let d₄ = set d 4 0 in
    let d₅ = set d₄ 5 0 in
    let d₆ = set d₅ 6 0 in
    let kept : (k : ℕ) → k < 4 → get_or (set d₆ 7 0) k 0 ≡ get_or d k 0 = λ k lt.
      get_or-set_ne d₆ 7 k 0 0 (omega arith)
      ∙ get_or-set_ne d₅ 6 k 0 0 (omega arith)
      ∙ get_or-set_ne d₄ 5 k 0 0 (omega arith)
      ∙ get_or-set_ne d 4 k 0 0 (omega arith) in
    rw (Stack.ne_test limit h)
      (omega (arith, kept 0 (omega arith), kept 1 (omega arith), kept 2 (omega arith)), refl)

-- The stack of the kind has room for the units, or there is no such stack and a place is free.
unfoldable pub has_room : ℕ → ℕ → ℕ → Client → Bool
has_room limit count kind c =
    elim (find_index (λ b. kind == compare_item b.data_bytes) c.bank_use c.bank_inventory) [
      | none ↦ ltb c.bank_use (length c.bank_inventory)
      | some ch2 ↦ leb (bank_stack (place c ch2) + count) limit
    ]

-- What a step of a deposit of n units of a kind does: the bank holds n more, the inventory stays.
pub record Banks (kind n : ℕ) (c c' : Client) : Type 0 where
  pub slots : c'.inventory ≡ c.inventory
  pub sum :
      bank_total kind (take c'.bank_use c'.bank_inventory)
      ≡ bank_total kind (take c.bank_use c.bank_inventory) + n

bank_next-Banks :
    (limit count ch : ℕ) (c : Client)
    → 0 < limit
    → count < 256
    → is_worn_armor (slot c ch) ≡ false
    → c.bank_use < length c.bank_inventory
    → Banks (compare_item (slot c ch).item.data_bytes) count c (bank_next limit count ch c)
unfolding bank_next
bank_next-Banks limit count ch c low small bare free =
    let i = (slot c ch).item in
    let kind = compare_item i.data_bytes in
    let v = banked_item limit count i in
    let (same, stored) = banked_kind limit count i low in
    let units : bank_units kind v ≡ count = rw (same, ==_refl kind, stored) (omega arith) in
    rw bare (record {
      slots = refl;
      sum =
          bank_total-set_next kind c.bank_inventory c.bank_use v free
          ∙ ap (λ n. bank_total kind (take c.bank_use c.bank_inventory) + n) units;
    })

bank_onto-Banks :
    (limit count ch2 kind : ℕ) (c : Client)
    → limit ≤ 99
    → ch2 < c.bank_use
    → ch2 < length c.bank_inventory
    → compare_item (place c ch2).data_bytes ≡ kind
    → leb (bank_stack (place c ch2) + count) limit ≡ true
    → Banks kind count c (bank_onto limit count ch2 c)
unfolding bank_onto
bank_onto-Banks limit count ch2 kind c small lt inside same fits =
    let b = place c ch2 in
    let v = record b { bank_count = (b.bank_count + count) % 2 ^ 32 } in
    let le = leb→le (bank_stack b + count) limit fits in
    let before : bank_units kind b ≡ bank_stack b = rw (same, ==_refl kind) in
    let after : bank_units kind v ≡ bank_stack b + count = rw (same, ==_refl kind) (omega arith) in
    let moved = bank_total-set kind c.bank_inventory c.bank_use ch2 v empty_bank_item lt inside in
    rw (le→ltb limit (bank_stack b + count) le)
      (record { slots = refl; sum = omega (arith, moved, before, after) })

unless_todc :
    {kind n : ℕ} {c c' : Client} (todc : Bool)
    → todc ≡ false
    → Banks kind n c c'
    → Banks kind n c (if todc then c else c')
unless_todc true e h = cc
unless_todc false e h = h

pub bank_item-Banks :
    (limit count ch : ℕ) (c : Client)
    → 0 < limit
    → limit ≤ 99
    → count < 256
    → is_worn_armor (slot c ch) ≡ false
    → c.todc ≡ false
    → has_room limit count (compare_item (slot c ch).item.data_bytes) c ≡ true
    → Banks (compare_item (slot c ch).item.data_bytes) count c (bank_item limit count ch c)
unfolding bank_item has_room
bank_item-Banks limit count ch c low high small bare on fits =
    let d = (slot c ch).item.data_bytes in
    elim (Option-cases (find_index (same_bank_kind d) c.bank_use c.bank_inventory)) [
      | inl e ↦
          let free : ltb c.bank_use (length c.bank_inventory) ≡ true = rw (e, has_room) at fits in
          rw (Stack.ne_test limit low, e)
            (unless_todc c.todc on (
              bank_next-Banks limit count ch c low small bare
                (ltb→lt c.bank_use (length c.bank_inventory) free)))
      | inr (ch2, e) ↦
          let f = find_index-Found (same_bank_kind d) empty_bank_item _ _ ch2 e in
          let fits' : leb (bank_stack (place c ch2) + count) limit ≡ true =
            rw (e, has_room) at fits in
          let same : compare_item (place c ch2).data_bytes ≡ compare_item d =
            sym ((==_iff _ _).0 f.passes) in
          rw (Stack.ne_test limit low, e)
            (bank_onto-Banks limit count ch2 (compare_item d) c high f.below f.inside same fits')
    ]

-- A clean inventory goes by the slots alone.
pub clean_up_same :
    (c c' : Client)
    → c.inventory ≡ c'.inventory
    → IsTidy (clean_up_inventory c')
    → IsTidy (clean_up_inventory c) × (items (clean_up_inventory c) ≡ items (clean_up_inventory c'))
unfolding clean_up_inventory
clean_up_same c c' e v = (record { size = rw e v.size; packed = rw e v.packed }, rw e refl)
