-- ===== src/Bank/Withdraw.antt =====
-- What the steps of `WithdrawFromBank` of a stack do to the bank and to the inventory.
pub mod Total
use tethealla.Base.{
  ℕ, zero, suc, ◌+◌, ◌-◌, ◌*◌, ◌%◌, ◌^◌, ◌≤◌, ◌<◌, ◌≡◌, ◌≢◌, refl, sym, ap, ◌∙◌, subst, List, [],
  ◌∷◌, ◌++◌, Bool, true, false, not, ◌&&◌, ◌||◌, Option, none, some, inl, inr, arith, ltb, leb,
  ◌==◌, if◌then◌else◌, length, take, set, get_or, length-set, get_or-set_self, get_or-set_ne,
  Bool-cases, Option-cases, ==_iff, ==_refl, le→ltb, leb→le, ltb→lt, lt→ltb,
}
use tethealla.Item.{
  InventoryItem, BankItem, Item, zero_inventory_item, empty_bank_item, no_item, byte, stackable,
  at_least_one, compare_item,
}
use tethealla.Game.{Client, Room, find_index, slot}
use tethealla.Game.Find.{find_index-Found}
use tethealla.Inventory.CleanUp.{max_inventory}
use tethealla.Inventory.CleanUp.Packed.{IsTidy, items}
use tethealla.Inventory.Units.{total, units}
use tethealla.Inventory.Delete.Stack.{ne_test}
use tethealla.Inventory.Add.{same_kind, give_item, stack_of, set_stack, stack_bytes}
use tethealla.Inventory.Add.Slots.{
  IsShaped, stackable_bound, fresh, Adds, give_item-Adds, set_stack-Adds, units-stack_bytes,
}
use tethealla.Bank.{
  max_bank, banked, clean_up_bank, place, set_place, bank_stack, withdraw_onto, withdrawn_item,
  tell_withdrawal, withdraw_next, withdraw_item, withdraw_finish, withdraw_stack, withdraw_found,
  withdraw,
}
use tethealla.Bank.Units.{bank_units, bank_total}
use tethealla.Bank.Places.{IsTidyBank, live_units, banked_total-set, clean_up_bank_lem}

-- The stack of the kind in the inventory has room for the units, or there is no such stack and a
-- slot is free.
unfoldable pub has_slot : ℕ → ℕ → ℕ → Client → Bool
has_slot limit count kind c =
    elim (find_index (λ i. kind == compare_item i.item.data_bytes) c.inventory_use c.inventory) [
      | none ↦ ltb c.inventory_use max_inventory
      | some ch ↦ leb (stack_of c ch + count) limit
    ]

-- What a step of a withdrawal of n units of a kind does: the inventory holds n more, the bank stays.
pub record Gains (kind n : ℕ) (c : Client) (out : Room × ℕ × Bool) : Type 0 where
  pub tidy : IsTidy out.0.client
  pub sum : total kind (items out.0.client) ≡ total kind (items c) + n
  pub places : out.0.client.bank_inventory ≡ c.bank_inventory
  pub added : out.2 ≡ true

-- The item that is given counts for the units.
withdrawn_units :
    (limit count itemid : ℕ) (b : BankItem)
    → 0 < limit
    → 0 < count
    → count < 256
    → 5 < length b.data_bytes
    → units (compare_item b.data_bytes) (fresh (withdrawn_item limit count itemid b)) ≡ count
withdrawn_units limit count itemid b low pos small bytes = rw (ne_test limit low) (
    units-stack_bytes count (record { data_bytes = b.data_bytes; itemid = itemid; data2 = b.data2 })
      pos small bytes)

if_false {ℓ} : {A : Type ℓ} (x y : A) (t : Bool) → t ≡ false → (if t then x else y) ≡ y
if_false x y true e = cc
if_false x y false e = refl

module _ (limit count found : ℕ) (r : Room) (v : IsTidy r.client)
    (shaped : IsShaped r.client.inventory) (low : 0 < limit) (high : limit ≤ 99) (pos : 0 < count)
    (small : count < 256) (on : r.client.todc ≡ false) where
  abbrev b : BankItem
  b = place r.client found

  abbrev kind : ℕ
  kind = compare_item b.data_bytes

  next_given :
      withdraw_next limit count found r ≡ give_item (withdrawn_item limit count r.lobby.item_id b) r
  unfolding withdraw_next
  next_given =
      if_false (r, false) (give_item (withdrawn_item limit count r.lobby.item_id b) r) r.client.todc
        on

  next-Gains :
      5 < length b.data_bytes
      → r.client.inventory_use < max_inventory
      → Gains kind count r.client
          ((withdraw_next limit count found r).0, count, (withdraw_next limit count found r).1)
  unfolding give_item
  next-Gains bytes free =
      let i = withdrawn_item limit count r.lobby.item_id b in
      let a = (give_item-Adds kind i r v).0 in
      let full : leb max_inventory r.client.inventory_use ≡ false = ground arith in
      let tidy : IsTidy (give_item i r).0.client = a.tidy in
      let given : (give_item i r).1 ≡ true = rw full in
      let sum : total kind (items (give_item i r).0.client) ≡ total kind (items r.client) + count =
        a.sum
        ∙ ap (λ t. total kind (items r.client) + (if t then units kind (fresh i) else 0)) given
        ∙ ap (λ n. total kind (items r.client) + n)
            (withdrawn_units limit count r.lobby.item_id b low pos small bytes) in
      let same : (give_item i r).0.client.bank_inventory ≡ r.client.bank_inventory = rw full in
      subst (λ out. Gains kind count r.client (out.0, count, out.1)) (sym next_given)
        (record { tidy = tidy; sum = sum; places = same; added = given })

  onto-Gains :
      (ch : ℕ)
      → ch < r.client.inventory_use
      → compare_item (slot r.client ch).item.data_bytes ≡ kind
      → leb (stack_of r.client ch + count) limit ≡ true
      → Gains kind count r.client (
        record r { client = (withdraw_onto limit count ch r.client).0 },
        (withdraw_onto limit count ch r.client).1,
        true,
      )
  unfolding withdraw_onto
  onto-Gains ch lt same fits =
      let le = leb→le (stack_of r.client ch + count) limit fits in
      let n = (stack_of r.client ch + count) % 256 in
      let (tidy, sum) =
        set_stack-Adds ch n count r.client v shaped lt (ground arith) (omega arith) in
      rw (le→ltb limit (stack_of r.client ch + count) le) (record {
        tidy = tidy;
        sum =
            subst
              (λ k. total k (items (set_stack ch n r.client)) ≡ total k (items r.client) + count)
              same sum;
        places = refl;
        added = refl;
      })

  pub item-Gains :
      5 < length b.data_bytes
      → has_slot limit count kind r.client ≡ true
      → Gains kind count r.client (withdraw_item limit count found r)
  unfolding withdraw_item has_slot
  item-Gains bytes fits =
      elim (Option-cases
        (find_index (same_kind b.data_bytes) r.client.inventory_use r.client.inventory)) [
          | inl e ↦
              let free : ltb r.client.inventory_use max_inventory ≡ true =
                rw (e, has_slot) at fits in
              rw (ne_test limit low, e)
                (next-Gains bytes (ltb→lt r.client.inventory_use max_inventory free))
          | inr (ch, e) ↦
              let f = find_index-Found (same_kind b.data_bytes) zero_inventory_item _ _ ch e in
              let fits' : leb (stack_of r.client ch + count) limit ≡ true =
                rw (e, has_slot) at fits in
              rw (ne_test limit low, e)
                (onto-Gains ch f.below (sym ((==_iff _ _).0 f.passes)) fits')
        ]

-- The client once the lobby is told
pub told_client :
    (limit told found : ℕ) (delete : Bool) (r : Room)
    → 0 < limit
    → (tell_withdrawal limit told delete found r).client ≡ (
        if delete
        then set_place found (record (place r.client found) { itemid = no_item }) r.client
        else r.client)
unfolding tell_withdrawal
told_client limit told found true r low = refl
told_client limit told found false r low = rw (ne_test limit low)

-- The places of a bank once `left` units are left in a place, which is free where there are none.
abbrev pub lowered : ℕ → ℕ → Client → Client
lowered found left c = set_place found (record (place c found) { bank_count = 0x10000 + left }) c

pub lowered_total :
    (found left : ℕ) (c : Client)
    → found < length c.bank_inventory
    → ((place c found).itemid == no_item) ≡ false
    → left ≤ bank_stack (place c found)
    → let kind = compare_item (place c found).data_bytes in
      bank_total kind (banked (lowered found left c).bank_inventory) + bank_stack (place c found)
      ≡ bank_total kind (banked c.bank_inventory) + left
lowered_total found left c inside used le =
    let b = place c found in
    let w = record b { bank_count = 0x10000 + left } in
    let kind = compare_item b.data_bytes in
    let before : live_units kind b ≡ bank_stack b = rw (used, ==_refl kind) in
    let after : live_units kind w ≡ left = rw (used, ==_refl kind) (omega arith) in
    omega
      (arith, banked_total-set kind c.bank_inventory found w empty_bank_item inside, before, after)

pub freed_total :
    (found kind : ℕ) (c : Client)
    → found < length c.bank_inventory
    → bank_stack (place c found) ≡ 0
    → bank_total kind
        (banked (set_place found (record (place c found) { itemid = no_item }) c).bank_inventory)
      ≡ bank_total kind (banked c.bank_inventory)
freed_total found kind c inside empty =
    let b = place c found in
    let w = record b { itemid = no_item } in
    let before : live_units kind b ≡ 0 = ground arith in
    omega (arith, banked_total-set kind c.bank_inventory found w empty_bank_item inside, before)
