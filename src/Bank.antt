-- ===== src/Bank.antt =====
-- The bank: `CleanUpBank`, `WithdrawFromBank`, `DepositIntoBank` and `SortBankItems` of
-- ship_server.c, and the bank command 0xBD of `Send62`.
pub mod Sort
pub mod Command
pub mod Units
pub mod Places
pub mod Withdraw
pub mod Deposit
mod Tests
use tethealla.Base.{
  ℕ, zero, suc, ◌+◌, ◌-◌, ◌*◌, ◌/◌, ◌%◌, ◌^◌, List, [], ◌∷◌, ◌++◌, Bool, true, false, not, ◌&&◌,
  ◌||◌, Option, none, some, ltb, leb, ◌==◌, if◌then◌else◌, length, get_or, set, take, replicate,
}
use tethealla.Item.{
  Item, InventoryItem, BankItem, byte, set_byte, no_item, empty_bank_item, compare_item, stackable,
  at_least_one,
}
use tethealla.Game.{
  Client, Lobby, Room, World, in_lobby, in_lobby_result, disconnect, send, find_index, slot,
  set_slot, has_id,
}
use tethealla.Inventory.CleanUp.{clean_up_inventory}
use tethealla.Inventory.Delete.{stripped}
use tethealla.Inventory.Add.{same_kind, give_item, stack_of, set_stack, stack_bytes, item_packet}

-- The places of a bank.
abbrev pub max_bank : ℕ
max_bank = 200

-- The loop that copies the items to `bank_data`.
unfoldable pub banked : List BankItem → List BankItem
banked [] = []
banked (b ∷ places) = if b.itemid == no_item then banked places else b ∷ banked places

-- `CleanUpBank`
unfoldable pub clean_up_bank : Client → Client
clean_up_bank c =
    let bank_data = banked (take max_bank c.bank_inventory) in
    record c {
      bank_use = length bank_data;
      bank_inventory = bank_data ++ replicate (max_bank - length bank_data) empty_bank_item;
    }

-- `bankInventory[ch]`, and the write
abbrev pub place : Client → ℕ → BankItem
place c ch = get_or c.bank_inventory ch empty_bank_item

abbrev pub set_place : ℕ → BankItem → Client → Client
set_place ch b c = record c { bank_inventory = set c.bank_inventory ch b }

-- `bank_count & 0xFF`
abbrev pub bank_stack : BankItem → ℕ
bank_stack b = b.bank_count % 256

abbrev pub same_bank_kind : List ℕ → BankItem → Bool
same_bank_kind d b = compare_item d == compare_item b.data_bytes

-- The body of the loop of `DepositIntoBank` that looks for a stack of the kind.
unfoldable pub bank_onto : ℕ → ℕ → ℕ → Client → Client
bank_onto limit count ch2 c =
    let b = place c ch2 in
    if ltb limit (bank_stack b + count)
    then set_place ch2 (record b { bank_count = 0x10000 + limit }) c
    else set_place ch2 (record b { bank_count = (b.bank_count + count) % 2 ^ 32 }) c

-- The item as it is put in the next place of the bank.
unfoldable pub banked_item : ℕ → ℕ → Item → BankItem
banked_item limit count i =
    if limit == 0
    then record {
      data_bytes = i.data_bytes;
      itemid = i.itemid;
      data2 = i.data2;
      bank_count = 0x10001;
    }
    else record {
      data_bytes = set (set (set (set i.data_bytes 4 0) 5 0) 6 0) 7 0;
      itemid = i.itemid;
      data2 = i.data2;
      bank_count = (0x10000 + count) % 2 ^ 32;
    }

-- `if ( ( !client->todc ) && ( !deposit_done ) )`
unfoldable pub bank_next : ℕ → ℕ → ℕ → Client → Client
bank_next limit count ch c =
    let c' = stripped ch c in
    record c' {
      bank_inventory =
          set c'.bank_inventory c'.bank_use (banked_item limit count (slot c' ch).item);
      bank_use = c'.bank_use + 1;
    }

-- `if ( deposit_item )`: onto a stack, or to the next place.
unfoldable pub bank_item : ℕ → ℕ → ℕ → Client → Client
bank_item limit count ch c =
    let d = (slot c ch).item.data_bytes in
    let next = if c.todc then c else bank_next limit count ch c in
    if limit == 0 then next else elim (find_index (same_bank_kind d) c.bank_use c.bank_inventory) [
      | none ↦ next
      | some ch2 ↦ bank_onto limit count ch2 c
    ]

-- `inventory[ch].in_use = 0`
abbrev pub unused : ℕ → Client → Client
unused ch c = set_slot ch (record (slot c ch) { in_use = 0 }) c

-- The branch of a stack that holds `count` units, and that of an item that does not stack.
unfoldable pub deposit_stack : ℕ → ℕ → ℕ → Room → Room
deposit_stack limit count ch r =
    let i = slot r.client ch in
    let stack_count = at_least_one (byte i.item 5) in
    let left = stack_count - count in
    let c =
      bank_item limit count ch
        (set_slot ch (record i { item = set_byte i.item 5 left }) r.client) in
    if ltb stack_count count
    then disconnect "Trying to deposit more items than in possession." r
    else record r { client = if left == 0 then unused ch c else c }

unfoldable pub deposit_whole : ℕ → Room → Room
deposit_whole ch r = record r { client = unused ch (bank_item 0 0 ch r.client) }

-- What is done where the loop has found the item.
unfoldable pub deposit_found : ℕ → ℕ → Room → Room
deposit_found ch count r =
    let limit = stackable (slot r.client ch).item.data_bytes in
    let r' =
      if limit == 0 then deposit_whole ch r else deposit_stack limit (at_least_one count) ch r in
    record r' { client = clean_up_inventory r'.client }

-- `DepositIntoBank`, with a lobby
unfoldable pub deposit : ℕ → ℕ → Room → Room
deposit itemid count r =
    elim (find_index (has_id itemid) r.client.inventory_use r.client.inventory) [
      | none ↦ disconnect "Could not find item to deposit." r
      | some ch ↦ deposit_found ch count r
    ]

-- `DepositIntoBank`
unfoldable pub deposit_into_bank : ℕ → ℕ → World → World
deposit_into_bank itemid count = in_lobby (deposit itemid count)

-- The stack of the kind in the inventory, filled up to the limit: the count that the packet tells.
unfoldable pub withdraw_onto : ℕ → ℕ → ℕ → Client → Client × ℕ
withdraw_onto limit count ch c =
    let stack_count = stack_of c ch in
    if ltb limit (stack_count + count)
    then (set_stack ch limit c, (limit + 2 ^ 32 - stack_count) % 2 ^ 32)
    else (set_stack ch ((stack_count + count) % 256) c, count)

-- The item of the bank as it is given to the character, with the item id of the lobby.
abbrev pub withdrawn_item : ℕ → ℕ → ℕ → BankItem → Item
withdrawn_item limit count itemid b = record {
  data_bytes = if limit == 0 then b.data_bytes else stack_bytes count b.data_bytes;
  itemid = itemid;
  data2 = b.data2;
}

-- `if ( item_added )`: the packet, the next item id, and the place of the bank that is free now.
unfoldable pub tell_withdrawal : ℕ → ℕ → Bool → ℕ → Room → Room
tell_withdrawal limit told delete found r =
    let b = place r.client found in
    let itemid = r.lobby.item_id in
    let packet =
      if limit == 0
      then item_packet r b.data_bytes itemid b.data2
      else item_packet r (set b.data_bytes 5 (told % 256)) itemid (0 ∷ 0 ∷ 0 ∷ 0 ∷ []) in
    let r₁ = send packet 0 r in
    record r₁ {
      lobby = record (r₁.lobby) { item_id = (itemid + 1) % 2 ^ 32 };
      client =
          if delete || limit == 0
          then set_place found (record b { itemid = no_item }) r₁.client
          else r₁.client;
    }

-- `if ( (!client->todc ) && ( item_added == 0 ) )`
unfoldable pub withdraw_next : ℕ → ℕ → ℕ → Room → Room × Bool
withdraw_next limit count found r =
    if r.client.todc
    then (r, false)
    else give_item (withdrawn_item limit count r.lobby.item_id (place r.client found)) r

-- `if ( found_item != -1 )`, of `count` units: onto a stack, or to the next slot, with the count told.
unfoldable pub withdraw_item : ℕ → ℕ → ℕ → Room → Room × ℕ × Bool
withdraw_item limit count found r =
    let d = (place r.client found).data_bytes in
    let (r', added) = withdraw_next limit count found r in
    if limit == 0
    then (r', count, added)
    else elim (find_index (same_kind d) r.client.inventory_use r.client.inventory) [
      | none ↦ (r', count, added)
      | some ch ↦
          let (c, told) = withdraw_onto limit count ch r.client in
          (record r { client = c }, told, true)
    ]

-- The end of `WithdrawFromBank`
unfoldable pub withdraw_finish : ℕ → Bool → ℕ → Room × ℕ × Bool → Room × Bool
withdraw_finish limit delete found (r, told, added) =
    let r' = if added then tell_withdrawal limit told delete found r else r in
    (record r' { client = clean_up_bank r'.client }, added)

-- The branch of a stack of the bank that holds `count` units
unfoldable pub withdraw_stack : ℕ → ℕ → ℕ → Room → Room × Bool
withdraw_stack limit count found r =
    let b = place r.client found in
    let stack_count = at_least_one (bank_stack b) in
    let left = stack_count - count in
    let c = set_place found (record b { bank_count = 0x10000 + left }) r.client in
    if ltb stack_count count
    then (
      disconnect "Could not find bank item to withdraw."
          (disconnect "Trying to pull a fast one on the bank teller." r),
      false,
    )
    else withdraw_finish limit (left == 0) found
        (withdraw_item limit count found (record r { client = c }))

-- What is done where the loop has found the item.
unfoldable pub withdraw_found : ℕ → ℕ → Room → Room × Bool
withdraw_found found count r =
    let limit = stackable (place r.client found).data_bytes in
    if limit == 0
    then withdraw_finish 0 false found (withdraw_item 0 count found r)
    else withdraw_stack limit (at_least_one count) found r

-- `WithdrawFromBank`, with a lobby
unfoldable pub withdraw : ℕ → ℕ → Room → Room × Bool
withdraw itemid count r =
    elim (find_index (λ b. b.itemid == itemid) r.client.bank_use r.client.bank_inventory) [
      | none ↦ (disconnect "Could not find bank item to withdraw." r, false)
      | some found ↦ withdraw_found found count r
    ]

-- `WithdrawFromBank`
unfoldable pub withdraw_from_bank : ℕ → ℕ → World → World × Bool
withdraw_from_bank itemid count = in_lobby_result (withdraw itemid count)
