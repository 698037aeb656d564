-- ===== src/Bank/Command.antt =====
-- The bank command 0xBD of `Send62` in ship_server.c, for a client in a game on the floor of the
-- city, from the `switch` on the action.
use tethealla.Base.{
  ℕ, ◌+◌, ◌-◌, ◌%◌, ◌^◌, ◌≤◌, ◌<◌, ◌≡◌, arith, true, ltb, leb, ◌==◌, if◌then◌else◌,
}
use tethealla.Item.{no_item}
use tethealla.Game.{Client, Room, disconnect}
use tethealla.Inventory.Add.{max_meseta}
use tethealla.Bank.{max_bank, deposit, withdraw}
use tethealla.Bank.Sort.{sort_bank_items}

-- A deposit of meseta: what is over the limit of the bank is lost.
unfoldable pub deposit_meseta : ℕ → Room → Room
deposit_meseta meseta r =
    let c = r.client in
    let bank_meseta = (c.bank_meseta + meseta) % 2 ^ 32 in
    if leb meseta c.meseta
    then record r {
      client = record c {
        bank_meseta = if ltb max_meseta bank_meseta then max_meseta else bank_meseta;
        meseta = c.meseta - meseta;
      };
    }
    else disconnect "Client/server data synchronization error." r

-- A withdrawal of meseta
unfoldable pub withdraw_meseta : ℕ → Room → Room
withdraw_meseta meseta r =
    let c = r.client in
    if leb meseta c.bank_meseta
    then record r {
      client = record c {
        bank_meseta = c.bank_meseta - meseta;
        meseta = (c.meseta + meseta) % 2 ^ 32;
      };
    }
    else record r { client = record c { todc = true } }

-- A deposit of an item: the bank is sorted after it.
unfoldable pub deposit_sorted : ℕ → ℕ → Room → Room
deposit_sorted itemid count r =
    let r' = deposit itemid count r in
    if ltb r.client.bank_use max_bank
    then (if r'.client.todc then r' else record r' { client = sort_bank_items r'.client })
    else disconnect "Can't deposit.  Bank is full." r

-- The `switch`, on `decryptbuf[0x14]`
unfoldable pub bank_command : ℕ → ℕ → ℕ → ℕ → Room → Room
bank_command action itemid meseta count r =
    if action == 0
    then (if itemid == no_item then deposit_meseta meseta r else deposit_sorted itemid count r)
    else if action == 1
    then (if itemid == no_item then withdraw_meseta meseta r else (withdraw itemid count r).0)
    else r

-- What a character and its bank hold of meseta
abbrev pub wealth : Client → ℕ
wealth c = c.meseta + c.bank_meseta

-- A bank command on meseta (its item id is 0xFFFFFFFF), where the character and the bank together
-- hold less than 2^32, never makes the sum of their meseta grow, whatever amount it asks for; and
-- a command that withdraws leaves the sum as it was.
pub bank_command-wealth :
    (action meseta count : ℕ) (r : Room)
    → wealth r.client < 2 ^ 32
    → (wealth (bank_command action no_item meseta count r).client ≤ wealth r.client)
      × (wealth (bank_command 1 no_item meseta count r).client ≡ wealth r.client)
unfolding bank_command deposit_meseta withdraw_meseta
bank_command-wealth action meseta count r h = (ground arith, ground arith)
