-- ===== src/Bank/Withdraw/Total.antt =====
-- `WithdrawFromBank` of a stack moves exactly what is asked.
use tethealla.Base.{
  ℕ, ◌+◌, ◌-◌, ◌≤◌, ◌<◌, ◌≡◌, ◌≢◌, refl, ap, ◌∙◌, subst, Bool, true, false, some, inl, inr, arith,
  ◌==◌, length, take, length-set, get_or-set_self, Bool-cases, ==_iff, le→ltb,
}
use tethealla.Item.{BankItem, empty_bank_item, no_item, stackable, at_least_one, compare_item}
use tethealla.Game.{Client, Room, find_index}
use tethealla.Game.Find.{find_index-Found}
use tethealla.Inventory.CleanUp.Packed.{IsTidy, items}
use tethealla.Inventory.Units.{total}
use tethealla.Inventory.Delete.Stack.{ne_test}
use tethealla.Inventory.Add.Slots.{IsShaped, stackable_bound}
use tethealla.Bank.{
  max_bank, banked, clean_up_bank, place, bank_stack, tell_withdrawal, withdraw_item,
  withdraw_finish, withdraw_stack, withdraw_found, withdraw,
}
use tethealla.Bank.Units.{bank_total}
use tethealla.Bank.Places.{IsTidyBank, clean_up_bank_lem}
use tethealla.Bank.Withdraw.{
  has_slot, Gains, item-Gains, told_client, lowered, lowered_total, freed_total,
}

module _ (limit count found : ℕ) (r : Room) (v : IsTidy r.client)
    (shaped : IsShaped r.client.inventory) (low : 0 < limit) (high : limit ≤ 99) (pos : 0 < count)
    (small : count < 256) (on : r.client.todc ≡ false)
    (size : length r.client.bank_inventory ≡ max_bank)
    (inside : found < length r.client.bank_inventory)
    (used : ((place r.client found).itemid == no_item) ≡ false)
    (bytes : 5 < length (place r.client found).data_bytes)
    (enough : count ≤ bank_stack (place r.client found))
    (fits : has_slot limit count (compare_item (place r.client found).data_bytes) r.client
      ≡ true) where
  abbrev b : BankItem
  b = place r.client found

  abbrev kind : ℕ
  kind = compare_item b.data_bytes

  abbrev left : ℕ
  left = bank_stack b - count

  abbrev r₁ : Room
  r₁ = record r { client = lowered found left r.client }

  placed : place r₁.client found ≡ record b { bank_count = 0x10000 + left }
  placed = get_or-set_self r.client.bank_inventory found _ empty_bank_item inside

  gains : Gains kind count r₁.client (withdraw_item limit count found r₁)
  unfolding has_slot
  gains =
      let same : compare_item (place r₁.client found).data_bytes ≡ kind = rw placed refl in
      subst (λ k. Gains k count r₁.client (withdraw_item limit count found r₁)) same
        (item-Gains limit count found r₁ (record { size = v.size; packed = v.packed }) shaped low
          high pos small on (rw placed bytes) (rw placed fits))

  abbrev out : Room × ℕ × Bool
  out = withdraw_item limit count found r₁

  -- The client before the bank is cleaned up
  abbrev told : Client
  told = (tell_withdrawal limit out.1 (left == 0) found out.0).client

  told-items : IsTidy told × (items told ≡ items out.0.client)
  told-items = elim (Bool-cases (left == 0)) [
    | inl z ↦
        rw (told_client limit out.1 found (left == 0) out.0 low, z)
          (record { size = gains.tidy.size; packed = gains.tidy.packed }, refl)
    | inr z ↦ rw (told_client limit out.1 found (left == 0) out.0 low, z) (gains.tidy, refl)
  ]

  size₁ : length out.0.client.bank_inventory ≡ max_bank
  size₁ = ap length gains.places ∙ (length-set r.client.bank_inventory found _ ∙ size)

  lowered_units :
      bank_total kind (banked out.0.client.bank_inventory) + count
      ≡ bank_total kind (banked r.client.bank_inventory)
  lowered_units =
      rw gains.places (omega (arith, lowered_total found left r.client inside used (omega arith)))

  -- An empty place has nothing to lose.
  emptied : left ≡ 0 → bank_stack (place out.0.client found) ≡ 0
  emptied z = rw (gains.places, placed) (omega arith)

  told_bank :
      (length told.bank_inventory ≡ max_bank)
      × (bank_total kind (banked told.bank_inventory) + count
          ≡ bank_total kind (banked r.client.bank_inventory))
  told_bank = elim (Bool-cases (left == 0)) [
    | inl z ↦
        let here : found < length out.0.client.bank_inventory =
          omega (arith, size₁, inside, size) in
        rw (told_client limit out.1 found (left == 0) out.0 low, z)
          (
            length-set out.0.client.bank_inventory found _ ∙ size₁,
            ap (λ n. n + count)
                  (freed_total found kind out.0.client here (emptied ((==_iff left 0).0 z)))
                ∙ lowered_units,
          )
    | inr z ↦ rw (told_client limit out.1 found (left == 0) out.0 low, z) (size₁, lowered_units)
  ]

  finished : (withdraw_finish limit (left == 0) found out).0.client ≡ clean_up_bank told
  unfolding withdraw_finish
  finished = rw gains.added

  stack_client : (withdraw_stack limit count found r).0.client ≡ clean_up_bank told
  unfolding withdraw_stack
  stack_client =
      rw (ne_test (bank_stack b) (omega arith), le→ltb (bank_stack b) count enough) finished

  moved :
      let c' = clean_up_bank told in
      IsTidy c'
      × IsTidyBank c'
      × (total kind (items c') ≡ total kind (items r.client) + count)
      × (bank_total kind (take c'.bank_use c'.bank_inventory) + count
          ≡ bank_total kind (banked r.client.bank_inventory))
  unfolding clean_up_bank
  moved =
      let (tidy_bank, front, again) = clean_up_bank_lem told told_bank.0 in
      (
        record { size = told-items.0.size; packed = told-items.0.packed },
        tidy_bank,
        ap (total kind) told-items.1 ∙ gains.sum,
        ap (λ xs. bank_total kind xs + count) front ∙ told_bank.1,
      )

-- A withdrawal of units of a stack (a count of 0 is 1, and a count is a byte) that a bank of 200
-- places holds with the first six bytes at least, under an id that is not 0xFFFFFFFF, by a client
-- with a tidy inventory (of items with all their bytes) who is not to be disconnected, and of as
-- many as the stack has or fewer: where the first stack of the kind in the inventory stays within
-- its limit with these units, or the inventory has no stack of the kind and a slot is free,
-- exactly that many units leave the bank, as many more are in the inventory, and both are left in
-- order.
pub withdraw-units :
    (itemid count found : ℕ) (r : Room)
    → IsTidy r.client
    → IsShaped r.client.inventory
    → r.client.todc ≡ false
    → length r.client.bank_inventory ≡ max_bank
    → find_index (λ b. b.itemid == itemid) r.client.bank_use r.client.bank_inventory ≡ some found
    → itemid ≢ no_item
    → 0 < stackable (place r.client found).data_bytes
    → 5 < length (place r.client found).data_bytes
    → count < 256
    → at_least_one count ≤ bank_stack (place r.client found)
    → has_slot
        (stackable (place r.client found).data_bytes)
        (at_least_one count)
        (compare_item (place r.client found).data_bytes)
        r.client
      ≡ true
    → let kind = compare_item (place r.client found).data_bytes in
      let c' = (withdraw itemid count r).0.client in
      IsTidy c'
      × IsTidyBank c'
      × (total kind (items c') ≡ total kind (items r.client) + at_least_one count)
      × (bank_total kind (take c'.bank_use c'.bank_inventory) + at_least_one count
          ≡ bank_total kind (banked r.client.bank_inventory))
unfolding withdraw withdraw_found
withdraw-units itemid count found r v shaped on size search id stacks bytes small enough fits =
    let f = find_index-Found (λ b. b.itemid == itemid) empty_bank_item _ _ found search in
    let d = (place r.client found).data_bytes in
    let n = at_least_one count in
    let pos : 0 < n = ground arith in
    let byte_count : n < 256 = ground arith in
    let same : (place r.client found).itemid ≡ itemid = (==_iff _ _).0 f.passes in
    let used : ((place r.client found).itemid == no_item) ≡ false = ground arith in
    rw
      (
        search,
        withdraw,
        ne_test (stackable d) stacks,
        stack_client (stackable d) n found r v shaped stacks (stackable_bound d) pos byte_count on
            size f.inside used bytes enough fits,
      )
      (moved (stackable d) n found r v shaped stacks (stackable_bound d) pos byte_count on size
        f.inside used bytes enough fits)
