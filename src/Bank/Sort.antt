-- ===== src/Bank/Sort.antt =====
-- `SortBankItems` of ship_server.c.
pub mod Sorted
use tethealla.Base.{
  ℕ, zero, suc, ◌+◌, ◌*◌, List, [], ◌∷◌, ◌++◌, Bool, true, false, ltb, if◌then◌else◌, get_or, take,
  drop,
}
use tethealla.Item.{BankItem}
use tethealla.Game.{Client}

-- `compare_item1`: `data[0]`, `data[1]` and `data[2]`, the first of them the highest.
abbrev pub sort_key : BankItem → ℕ
sort_key b =
    get_or b.data_bytes 2 0 + 256 * get_or b.data_bytes 1 0 + 65536 * get_or b.data_bytes 0 0

-- The inner loop: `b1` stands in the place `ch`, and the list is of the places after it. What
-- comes to stand in `ch`, and in the places after.
unfoldable pub exchange : BankItem → List BankItem → BankItem × List BankItem
exchange b1 [] = (b1, [])
exchange b1 (b2 ∷ places) =
    let takes_place = ltb (sort_key b2) (sort_key b1) in
    let (first, rest) = exchange (if takes_place then b2 else b1) places in
    (first, (if takes_place then b1 else b2) ∷ rest)

-- The outer loop, over the first places of the bank
unfoldable pub exchange_all : ℕ → List BankItem → List BankItem
exchange_all zero places = places
exchange_all (suc n) [] = []
exchange_all (suc n) (b1 ∷ places) =
    let (first, rest) = exchange b1 places in first ∷ exchange_all n rest

-- `SortBankItems`
unfoldable pub sort_bank_items : Client → Client
sort_bank_items c =
    if ltb 1 c.bank_use
    then record c {
      bank_inventory =
          exchange_all c.bank_use (take c.bank_use c.bank_inventory)
          ++ drop c.bank_use c.bank_inventory;
    }
    else c
