-- ===== src/Bank/Tests.antt =====
-- The theorems on the bank at a small bank, and runs of the functions.
use mathlib.Core.List.{Perm}
use tethealla.Base.{ℕ, ◌+◌, ◌≤◌, ◌≡◌, refl, List, [], ◌∷◌, set, arith, take, drop, replicate, false}
use tethealla.Item.{zero_inventory_item, empty_bank_item, no_item, stackable}
use tethealla.Game.{no_stats, Client, Room, find_index}
use tethealla.Inventory.CleanUp.Packed.{IsTidy, items}
use tethealla.Inventory.Units.{total}
use tethealla.Inventory.Add.Slots.{IsShaped}
use tethealla.Bank.{deposit, withdraw, banked}
use tethealla.Bank.Places.{IsTidyBank}
use tethealla.Bank.Withdraw.{has_slot}
use tethealla.Bank.Withdraw.Total.{withdraw-units}
use tethealla.Bank.Units.{bank_total}
use tethealla.Bank.Deposit.{has_room}
use tethealla.Bank.Deposit.Total.{deposit-units}
use tethealla.Bank.Command.{bank_command, bank_command-wealth, wealth}
use tethealla.Bank.Sort.{sort_bank_items, exchange, exchange_all}
use tethealla.Bank.Sort.Sorted.{IsSorted, sort_bank_items-IsSorted}

abbrev tool : ℕ → ℕ → List ℕ
tool kind count = 3 ∷ kind ∷ 0 ∷ 0 ∷ 0 ∷ count ∷ 0 ∷ 0 ∷ 0 ∷ 0 ∷ 0 ∷ 0 ∷ []

-- A client with four monomates, and six more behind a fluid in its bank.
abbrev teller : Client
teller = record {
  inventory_use = 1;
  inventory =
      record {
        in_use = 1;
        flags = 0;
        item = record { data_bytes = tool 0 4; itemid = 65536; data2 = 0 ∷ 0 ∷ 0 ∷ 0 ∷ [] };
      }
      ∷ replicate 29 zero_inventory_item;
  meseta = 300;
  bank_use = 2;
  bank_meseta = 5000;
  bank_inventory =
      record {
        data_bytes = tool 1 0;
        itemid = 65537;
        data2 = 0 ∷ 0 ∷ 0 ∷ 0 ∷ [];
        bank_count = 65538;
      }
      ∷ record {
        data_bytes = tool 0 0;
        itemid = 65538;
        data2 = 0 ∷ 0 ∷ 0 ∷ 0 ∷ [];
        bank_count = 65542;
      }
      ∷ replicate 198 empty_bank_item;
  todc = false;
  client_id = 0;
  guildcard = 42;
  drop_area = 1;
  drop_coords = [];
  equip_flags = 1;
  char_class = 0;
  level = 0;
  xp = 0;
  stats = no_stats;
}

abbrev counter : Room
counter = record {
  client = teller;
  lobby = record {
    game_item = [];
    game_item_list = [];
    game_item_count = 0;
    item_id = 8454145;
    player_item_id = 65539 ∷ [];
  };
  sent = [];
}

tidy : IsTidy teller
tidy = record {
  size = refl;
  packed = (
    omega arith,
    (
      refl,
      (
        refl,
        (
          refl,
          (
            refl,
            (
              refl,
              (
                refl,
                (
                  refl,
                  (
                    refl,
                    (
                      refl,
                      (
                        refl,
                        (
                          refl,
                          (
                            refl,
                            (
                              refl,
                              (
                                refl,
                                (
                                  refl,
                                  (
                                    refl,
                                    (
                                      refl,
                                      (
                                        refl,
                                        (
                                          refl,
                                          (
                                            refl,
                                            (
                                              refl,
                                              (
                                                refl,
                                                (
                                                  refl,
                                                  (
                                                    refl,
                                                    (refl, (refl, (refl, (refl, (refl, tt))))),
                                                  ),
                                                ),
                                              ),
                                            ),
                                          ),
                                        ),
                                      ),
                                    ),
                                  ),
                                ),
                              ),
                            ),
                          ),
                        ),
                      ),
                    ),
                  ),
                ),
              ),
            ),
          ),
        ),
      ),
    ),
  );
}

deposit-units_example :
    let c' = (deposit 65536 3 counter).client in
    IsTidy c'
    × (total 3 (items c') + 3 ≡ total 3 (items teller))
    × (bank_total 3 (take c'.bank_use c'.bank_inventory)
        ≡ bank_total 3 (take 2 teller.bank_inventory) + 3)
unfolding find_index stackable has_room
deposit-units_example =
    deposit-units 65536 3 0 counter tidy refl refl (omega arith) (omega arith) (omega arith)
      (omega arith) refl

bank_command-wealth_example :
    (wealth (bank_command 0 no_item 250 0 counter).client ≤ 5300)
    × (wealth (bank_command 1 no_item 250 0 counter).client ≡ 5300)
bank_command-wealth_example = bank_command-wealth 0 250 0 counter (omega arith)

sort_bank_items-IsSorted_example :
    let after = (sort_bank_items teller).bank_inventory in
    Perm (take 2 after) (take 2 teller.bank_inventory)
    × IsSorted (take 2 after)
    × (drop 2 after ≡ drop 2 teller.bank_inventory)
sort_bank_items-IsSorted_example = sort_bank_items-IsSorted teller (omega arith)

-- The monomates come first.
sorts : take 1 (sort_bank_items teller).bank_inventory ≡ take 1 (drop 1 teller.bank_inventory)
unfolding sort_bank_items exchange exchange_all
sorts = refl

shaped : IsShaped teller.inventory
shaped = (
  omega arith,
  (
    omega arith,
    (
      omega arith,
      (
        omega arith,
        (
          omega arith,
          (
            omega arith,
            (
              omega arith,
              (
                omega arith,
                (
                  omega arith,
                  (
                    omega arith,
                    (
                      omega arith,
                      (
                        omega arith,
                        (
                          omega arith,
                          (
                            omega arith,
                            (
                              omega arith,
                              (
                                omega arith,
                                (
                                  omega arith,
                                  (
                                    omega arith,
                                    (
                                      omega arith,
                                      (
                                        omega arith,
                                        (
                                          omega arith,
                                          (
                                            omega arith,
                                            (
                                              omega arith,
                                              (
                                                omega arith,
                                                (
                                                  omega arith,
                                                  (
                                                    omega arith,
                                                    (
                                                      omega arith,
                                                      (
                                                        omega arith,
                                                        (omega arith, (omega arith, tt)),
                                                      ),
                                                    ),
                                                  ),
                                                ),
                                              ),
                                            ),
                                          ),
                                        ),
                                      ),
                                    ),
                                  ),
                                ),
                              ),
                            ),
                          ),
                        ),
                      ),
                    ),
                  ),
                ),
              ),
            ),
          ),
        ),
      ),
    ),
  ),
)

withdraw-units_example :
    let c' = (withdraw 65538 3 counter).0.client in
    IsTidy c'
    × IsTidyBank c'
    × (total 3 (items c') ≡ total 3 (items teller) + 3)
    × (bank_total 3 (take c'.bank_use c'.bank_inventory) + 3
        ≡ bank_total 3 (banked teller.bank_inventory))
unfolding find_index stackable has_slot
withdraw-units_example =
    withdraw-units 65538 3 1 counter tidy shaped refl refl refl (omega arith) (omega arith)
      (omega arith) (omega arith) (omega arith) refl

-- A bank with a free place among those in use
abbrev gap : Client
gap = record teller { bank_inventory = set teller.bank_inventory 0 empty_bank_item }
