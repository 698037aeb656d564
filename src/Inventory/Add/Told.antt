-- ===== src/Inventory/Add/Told.antt =====
-- What `AddToInventory` tells the lobby is what it adds.
use tethealla.Base.{
  ℕ, ◌+◌, ◌-◌, ◌%◌, ◌^◌, ◌≤◌, ◌<◌, ◌≡◌, refl, sym, ap, ◌∙◌, subst, ◌∷◌, Bool, true, false, not,
  ◌&&◌, none, some, inl, inr, arith, ltb, leb, ◌==◌, if◌then◌else◌, length, Bool-cases,
  Option-cases, ==_iff, leb→le, ltb→lt,
}
use tethealla.Item.{Item, zero_inventory_item, compare_item, stackable, at_least_one, byte}
use tethealla.Game.{Client, Room, send, send_to_lobby, find_index, slot}
use tethealla.Game.Find.{find_index-Found}
use tethealla.Inventory.CleanUp.{max_inventory}
use tethealla.Inventory.CleanUp.Packed.{IsTidy, items}
use tethealla.Inventory.Units.{total, units}
use tethealla.Inventory.Delete.Stack.{ne_test}
use tethealla.Inventory.Add.Slots.{
  IsShaped, stackable_bound, fresh, give_item-Adds, set_stack-Adds, units-stack_bytes,
}
use tethealla.Inventory.Add.PickUp.{not_meseta}
use tethealla.Inventory.Add.{
  same_kind, give_item, stack_of, stack_bytes, fill_onto, fill_stack, add_stack_or_item,
  told_packet, add_to_room,
}

-- The stack of the kind is not over the limit, or there is none and a slot is free.
unfoldable pub has_stack_room : ℕ → ℕ → Client → Bool
has_stack_room limit kind c =
    elim (find_index (λ i. kind == compare_item i.item.data_bytes) c.inventory_use c.inventory) [
      | none ↦ ltb c.inventory_use max_inventory
      | some ch ↦ leb (stack_of c ch) limit
    ]

-- The units told are added, are not more than asked, and nothing is sent yet.
record Tells (kind n : ℕ) (r : Room) (out : Room × ℕ × Bool) : Type 0 where
  tidy : IsTidy out.0.client
  sum : total kind (items out.0.client) ≡ total kind (items r.client) + out.1
  bound : out.1 ≤ n
  added : out.2 ≡ true
  quiet : (out.0.sent ≡ r.sent) × (out.0.client.todc ≡ r.client.todc)
  same_client : out.0.client.client_id ≡ r.client.client_id

module _ (limit count : ℕ) (i : Item) (r : Room) (v : IsTidy r.client)
    (shaped : IsShaped r.client.inventory) (low : 0 < limit) (high : limit ≤ 99) (pos : 0 < count)
    (small : count < 256) where
  onto-Tells :
      (ch : ℕ)
      → ch < r.client.inventory_use
      → leb (stack_of r.client ch) limit ≡ true
      → Tells (compare_item (slot r.client ch).item.data_bytes) count r (fill_onto limit count ch r)
  unfolding fill_onto
  onto-Tells ch lt fits =
      let s = stack_of r.client ch in
      let le = leb→le s limit fits in
      elim (Bool-cases (ltb limit (s + count))) [
        | inl over ↦
            let n = (limit + 2 ^ 32 - s) % 2 ^ 32 in
            let gap : n ≡ limit - s = omega arith in
            let more = ltb→lt limit (s + count) over in
            let (tidy, sum) =
              set_stack-Adds ch limit n r.client v shaped lt low (omega (arith, gap, le)) in
            rw over (record {
              tidy = tidy;
              sum = sum;
              bound = omega (arith, gap, le, more);
              added = refl;
              quiet = (refl, refl);
              same_client = refl;
            })
        | inr room ↦
            let n = (s + count) % 256 in
            let whole : n ≡ s + count = ground arith in
            let (tidy, sum) = set_stack-Adds ch n count r.client v shaped lt (omega arith) whole in
            rw room (record {
              tidy = tidy;
              sum = sum;
              bound = omega arith;
              added = refl;
              quiet = (refl, refl);
              same_client = refl;
            })
      ]

  abbrev given : Item
  given = record i { data_bytes = stack_bytes count i.data_bytes }

  next-Tells :
      5 < length i.data_bytes
      → r.client.inventory_use < max_inventory
      → Tells
          (compare_item i.data_bytes)
          count
          r
          ((give_item given r).0, count, (give_item given r).1)
  unfolding give_item
  next-Tells bytes free =
      let kind = compare_item i.data_bytes in
      let a = (give_item-Adds kind given r v).0 in
      let full : leb max_inventory r.client.inventory_use ≡ false = ground arith in
      let added : (give_item given r).1 ≡ true = rw full in
      record {
        tidy = a.tidy;
        sum =
            a.sum
            ∙ ap (λ t. total kind (items r.client) + (if t then units kind (fresh given) else 0))
                added
            ∙ ap (λ n. total kind (items r.client) + n) (units-stack_bytes count i pos small bytes);
        bound = omega arith;
        added = added;
        quiet = (rw full, rw full);
        same_client = rw full;
      }

stack-Tells :
    (limit count : ℕ) (i : Item) (r : Room)
    → IsTidy r.client
    → IsShaped r.client.inventory
    → 0 < limit
    → limit ≤ 99
    → 0 < at_least_one count
    → at_least_one count < 256
    → 5 < length i.data_bytes
    → has_stack_room limit (compare_item i.data_bytes) r.client ≡ true
    → Tells (compare_item i.data_bytes) (at_least_one count) r (add_stack_or_item limit count i r)
unfolding add_stack_or_item fill_stack has_stack_room
stack-Tells limit count i r v shaped low high pos small bytes fits =
    let n = at_least_one count in
    elim (Option-cases
      (find_index (same_kind i.data_bytes) r.client.inventory_use r.client.inventory)) [
        | inl e ↦
            let free : ltb r.client.inventory_use max_inventory ≡ true =
              rw (e, has_stack_room) at fits in
            let none_there : fill_stack limit n i r ≡ (r, n, false) = rw (e, fill_stack) in
            rw (ne_test limit low, none_there)
              (next-Tells limit n i r v shaped low high pos small bytes
                (ltb→lt r.client.inventory_use max_inventory free))
        | inr (ch, e) ↦
            let f = find_index-Found (same_kind i.data_bytes) zero_inventory_item _ _ ch e in
            let fits' : leb (stack_of r.client ch) limit ≡ true = rw (e, has_stack_room) at fits in
            let same : compare_item (slot r.client ch).item.data_bytes ≡ compare_item i.data_bytes =
              sym ((==_iff _ _).0 f.passes) in
            let t =
              subst (λ k. Tells k n r (fill_onto limit n ch r)) same
                (onto-Tells limit n i r v shaped low high pos small ch f.below fits') in
            let there : fill_stack limit n i r ≡ fill_onto limit n ch r = rw (e, fill_stack) in
            rw (ne_test limit low, there, t.added)
              (record {
                tidy = t.tidy;
                sum = t.sum;
                bound = t.bound;
                added = refl;
                quiet = t.quiet;
                same_client = t.same_client;
              })
      ]

third_branch {ℓ} :
    {A : Type ℓ} (t u : Bool) (a b c : A)
    → t ≡ false
    → u ≡ false
    → (if t then a else if u then b else c) ≡ c
third_branch true u a b c h k = cc
third_branch false true a b c h k = cc
third_branch false false a b c h k = refl

sends {ℓ} :
    {A : Type ℓ} (t u : Bool) (a b : A) → t ≡ false → u ≡ true → (if not t && u then a else b) ≡ a
sends true u a b h k = cc
sends false true a b h k = refl
sends false false a b h k = cc

add_to_room_lem :
    (i : Item) (count : ℕ) (shop : Bool) (r : Room)
    → r.client.todc ≡ false
    → 0 < stackable i.data_bytes
    → let limit = stackable i.data_bytes in
      let out = add_stack_or_item limit count i r in
      out.0.client.todc ≡ false
      → out.2 ≡ true
      → add_to_room i count shop r ≡ (
        send (told_packet out.0 limit out.1 i) (if shop then r.client.guildcard else 0) out.0,
        true,
      )
unfolding add_to_room
add_to_room_lem i count shop r on stacks still added =
    let limit = stackable i.data_bytes in
    ap
      (λ o.
        if not o.0.client.todc && o.2
        then (send (told_packet o.0 limit o.1 i) (if shop then r.client.guildcard else 0) o.0, true)
        else (o.0, o.2))
      (third_branch (byte i 0 == 4) r.client.todc _ _ (add_stack_or_item limit count i r)
        (not_meseta i.data_bytes stacks) on)
    ∙ sends _ _ _ _ still added

-- A stackable item of six bytes at least, with a count that is a byte, that `AddToInventory` gives
-- to a client with a tidy inventory (of items with all their bytes) who is not to be disconnected:
-- where the first stack of the kind in the inventory is not over its limit, or there is no stack
-- of the kind and a slot is free, it is added, and the packet that the lobby gets tells exactly
-- the number of units that are added, which is at most the number asked for (a count of 0 is 1).
pub add_to_room-told :
    (i : Item) (count : ℕ) (shop : Bool) (r : Room)
    → IsTidy r.client
    → IsShaped r.client.inventory
    → r.client.todc ≡ false
    → 0 < stackable i.data_bytes
    → 5 < length i.data_bytes
    → count < 256
    → has_stack_room (stackable i.data_bytes) (compare_item i.data_bytes) r.client ≡ true
    → let kind = compare_item i.data_bytes in
      let r' = (add_to_room i count shop r).0 in
      (told : ℕ) × IsTidy r'.client
      × (total kind (items r'.client) ≡ total kind (items r.client) + told)
      × (told ≤ at_least_one count)
      × (r'.sent
          ≡ send_to_lobby
              (told_packet r (stackable i.data_bytes) told i)
              (if shop then r.client.guildcard else 0)
            ∷ r.sent)
      × ((add_to_room i count shop r).1 ≡ true)
add_to_room-told i count shop r v shaped on stacks bytes small fits =
    let limit = stackable i.data_bytes in
    let t =
      stack-Tells limit count i r v shaped stacks (stackable_bound i.data_bytes) (ground arith)
        (ground arith) bytes fits in
    let out = add_stack_or_item limit count i r in
    let still : out.0.client.todc ≡ false = t.quiet.1 ∙ on in
    let packet : told_packet out.0 limit out.1 i ≡ told_packet r limit out.1 i =
      ap
        (λ id.
          told_packet (record r { client = record (r.client) { client_id = id } }) limit out.1 i)
        t.same_client in
    rw (add_to_room_lem i count shop r on stacks still t.added) (
      out.1,
      t.tidy,
      t.sum,
      t.bound,
      ap (λ b. send_to_lobby b (if shop then r.client.guildcard else 0) ∷ out.0.sent) packet
          ∙ ap
              (λ s.
                send_to_lobby (told_packet r limit out.1 i) (if shop then r.client.guildcard else 0)
                ∷ s)
              t.quiet.0,
      refl,
    )
