-- ===== src/Bank/Deposit/Total.antt =====
-- `DepositIntoBank` of a stack moves exactly what is asked.
use tethealla.Base.{
  ℕ, ◌+◌, ◌≤◌, ◌<◌, ◌≡◌, ap, ◌∙◌, true, false, some, inl, inr, arith, ◌==◌, if◌then◌else◌, length,
  take, set, get_or, get_or-set_self, Bool-cases, le→ltb,
}
use tethealla.Item.{zero_inventory_item, byte, stackable, at_least_one, compare_item, is_worn_armor}
use tethealla.Game.{Client, Room, find_index, slot, has_id}
use tethealla.Game.Find.{find_index-Found}
use tethealla.Inventory.CleanUp.{clean_up_inventory}
use tethealla.Inventory.CleanUp.Packed.{IsTidy, items}
use tethealla.Inventory.Units.{total, compare_item-set}
use tethealla.Inventory.Delete.{delete_slot, delete_from_stack}
use tethealla.Inventory.Delete.Content.{stack_not_armor}
use tethealla.Inventory.Delete.Stack
use tethealla.Inventory.Add.Slots.{stackable_bound}
use tethealla.Bank.{bank_item, unused, deposit_stack, deposit_found, deposit}
use tethealla.Bank.Units.{bank_total}
use tethealla.Bank.Deposit.{has_room, Banks, bank_item-Banks, clean_up_same}

-- The client that the deposit of a part of a stack leaves, before it is cleaned up.
module _ (limit count ch : ℕ) (r : Room) (v : IsTidy r.client) (lt : ch < r.client.inventory_use)
    (enough : count ≤ at_least_one (byte (slot r.client ch).item 5))
    (stacks : 0 < stackable (slot r.client ch).item.data_bytes) (low : 0 < limit)
    (high : limit ≤ 99) (small : count < 256) (on : r.client.todc ≡ false)
    (inside : ch < length r.client.inventory)
    (fits : has_room limit count (compare_item (slot r.client ch).item.data_bytes) r.client
      ≡ true) where
  abbrev left : ℕ
  left = Stack.left ch count false r v lt enough

  abbrev taken : Client
  taken = (Stack.written ch count false r v lt enough).client

  abbrev kind : ℕ
  kind = compare_item (slot r.client ch).item.data_bytes

  taken_slot : slot taken ch ≡ Stack.i' ch count false r v lt enough
  taken_slot = get_or-set_self r.client.inventory ch _ zero_inventory_item inside

  taken_kind : compare_item (slot taken ch).item.data_bytes ≡ kind
  taken_kind = rw taken_slot (compare_item-set (slot r.client ch).item.data_bytes left)

  taken_room : has_room limit count (compare_item (slot taken ch).item.data_bytes) taken ≡ true
  unfolding has_room
  taken_room = ap (λ k. has_room limit count k taken) taken_kind ∙ fits

  banked : Banks kind count taken (bank_item limit count ch taken)
  banked = rw taken_kind at (
      bank_item-Banks limit count ch taken low high small
        (ap is_worn_armor taken_slot ∙ stack_not_armor (slot r.client ch) left stacks) on
        taken_room)

  abbrev stored : Client
  stored = bank_item limit count ch taken

  deposit_client :
      (deposit_stack limit count ch r).client ≡ (if left == 0 then unused ch stored else stored)
  unfolding deposit_stack
  deposit_client = rw (le→ltb (at_least_one (byte (slot r.client ch).item 5)) count enough)

  -- The slots are those that a deletion leaves, and the bank is the one that the step leaves.
  deposit_slots :
      (deposit_stack limit count ch r).client.inventory
      ≡ (delete_from_stack ch count false r).client.inventory
  unfolding delete_slot
  deposit_slots =
      let bare = ap is_worn_armor taken_slot ∙ stack_not_armor (slot r.client ch) left stacks in
      elim (Bool-cases (left == 0)) [
        | inl z ↦
            rw
              (deposit_client, Stack.client-delete_from_stack ch count false r v lt enough, z, bare)
              (ap
                (λ slots.
                  set slots ch (record (get_or slots ch zero_inventory_item) { in_use = 0 }))
                banked.slots)
        | inr z ↦
            rw (deposit_client, Stack.client-delete_from_stack ch count false r v lt enough, z)
              banked.slots
      ]

  deposit_sum :
      bank_total kind (
        take
          (deposit_stack limit count ch r).client.bank_use
          (deposit_stack limit count ch r).client.bank_inventory)
      ≡ bank_total kind (take r.client.bank_use r.client.bank_inventory) + count
  deposit_sum = elim (Bool-cases (left == 0)) [
    | inl z ↦ rw (deposit_client, z) banked.sum
    | inr z ↦ rw (deposit_client, z) banked.sum
  ]

-- A deposit of units of a stack (a count of 0 is 1, and a count is a byte) that the tidy inventory
-- of a client holds with the first six bytes at least, of a client who is not to be disconnected,
-- and of as many as the stack has or fewer: where the first stack of the kind in the bank stays
-- within its limit with these units, or the bank has no stack of the kind and a place is free,
-- exactly that many units leave the inventory, which stays tidy, and as many more are in the bank.
pub deposit-units :
    (itemid count ch : ℕ) (r : Room)
    → IsTidy r.client
    → r.client.todc ≡ false
    → find_index (has_id itemid) r.client.inventory_use r.client.inventory ≡ some ch
    → 0 < stackable (slot r.client ch).item.data_bytes
    → 5 < length (slot r.client ch).item.data_bytes
    → count < 256
    → at_least_one count ≤ at_least_one (byte (slot r.client ch).item 5)
    → has_room
        (stackable (slot r.client ch).item.data_bytes)
        (at_least_one count)
        (compare_item (slot r.client ch).item.data_bytes)
        r.client
      ≡ true
    → let kind = compare_item (slot r.client ch).item.data_bytes in
      let c = r.client in
      let c' = (deposit itemid count r).client in
      IsTidy c'
      × (total kind (items c') + at_least_one count ≡ total kind (items c))
      × (bank_total kind (take c'.bank_use c'.bank_inventory)
          ≡ bank_total kind (take c.bank_use c.bank_inventory) + at_least_one count)
unfolding deposit deposit_found clean_up_inventory
deposit-units itemid count ch r v on found stacks bytes small enough fits =
    let f = find_index-Found (has_id itemid) zero_inventory_item _ _ ch found in
    let d = (slot r.client ch).item.data_bytes in
    let n = at_least_one count in
    let byte_count : n < 256 = ground arith in
    let (tidy, units) = Stack.total-after ch n false r v f.below enough stacks bytes in
    let slots =
      deposit_slots (stackable d) n ch r v f.below enough stacks stacks (stackable_bound d)
        byte_count on f.inside fits in
    let (tidy', same) =
      clean_up_same (deposit_stack (stackable d) n ch r).client
        (delete_from_stack ch n false r).client slots tidy in
    rw (found, deposit, Stack.ne_test (stackable d) stacks)
      (
        tidy',
        ap (λ xs. total (compare_item d) xs + n) same ∙ units,
        deposit_sum (stackable d) n ch r v f.below enough stacks stacks (stackable_bound d)
            byte_count on f.inside fits,
      )
