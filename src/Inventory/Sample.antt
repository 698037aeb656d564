-- ===== src/Inventory/Sample.antt =====
-- A small game, for the runs and the theorems at concrete inputs.
use tethealla.Base.{ℕ, refl, [], ◌∷◌, false, arith, replicate}
use tethealla.Item.{Item, zero_item, zero_inventory_item, no_item}
use tethealla.Game.{no_stats, Client, Lobby, Room}
use tethealla.Inventory.CleanUp.Packed.{IsTidy}
use tethealla.Inventory.Add.Slots.{IsShaped}

-- Four monomates, a worn armor, and a unit in it.
abbrev pub monomates : ℕ → ℕ → Item
monomates id count = record {
  data_bytes = 3 ∷ 0 ∷ 0 ∷ 0 ∷ 0 ∷ count ∷ 0 ∷ 0 ∷ 0 ∷ 0 ∷ 0 ∷ 0 ∷ [];
  itemid = id;
  data2 = 0 ∷ 0 ∷ 0 ∷ 0 ∷ [];
}

abbrev pub guard : ℕ → ℕ → Item
guard id part = record {
  data_bytes = 1 ∷ part ∷ 0 ∷ 0 ∷ 1 ∷ 0 ∷ 0 ∷ 0 ∷ 0 ∷ 0 ∷ 0 ∷ 0 ∷ [];
  itemid = id;
  data2 = 0 ∷ 0 ∷ 0 ∷ 0 ∷ [];
}

abbrev pub hunter : Client
hunter = record {
  inventory_use = 3;
  inventory =
      record { in_use = 1; flags = 0; item = monomates 65536 4 }
      ∷ record { in_use = 1; flags = 8; item = guard 65537 1 }
      ∷ record { in_use = 1; flags = 8; item = guard 65538 3 }
      ∷ replicate 27 zero_inventory_item;
  meseta = 100;
  bank_use = 0;
  bank_meseta = 0;
  bank_inventory = [];
  todc = false;
  client_id = 0;
  guildcard = 42;
  drop_area = 1;
  drop_coords = 0 ∷ 0 ∷ 0 ∷ 0 ∷ 0 ∷ 0 ∷ 0 ∷ 0 ∷ [];
  equip_flags = 1;
  char_class = 0;
  level = 0;
  xp = 0;
  stats = no_stats;
}

abbrev pub game : Lobby
game = record {
  game_item = monomates 8454144 3 ∷ replicate 3 zero_item;
  game_item_list = 0 ∷ replicate 3 no_item;
  game_item_count = 1;
  item_id = 8454145;
  player_item_id = 65539 ∷ [];
}

abbrev pub room : Room
room = record { client = hunter; lobby = game; sent = [] }

pub tidy : IsTidy hunter
tidy = record {
  size = refl;
  packed = (
    omega arith,
    (
      omega arith,
      (
        omega arith,
        (
          refl,
          (
            refl,
            (
              refl,
              (
                refl,
                (
                  refl,
                  (
                    refl,
                    (
                      refl,
                      (
                        refl,
                        (
                          refl,
                          (
                            refl,
                            (
                              refl,
                              (
                                refl,
                                (
                                  refl,
                                  (
                                    refl,
                                    (
                                      refl,
                                      (
                                        refl,
                                        (
                                          refl,
                                          (
                                            refl,
                                            (
                                              refl,
                                              (
                                                refl,
                                                (
                                                  refl,
                                                  (
                                                    refl,
                                                    (refl, (refl, (refl, (refl, (refl, tt))))),
                                                  ),
                                                ),
                                              ),
                                            ),
                                          ),
                                        ),
                                      ),
                                    ),
                                  ),
                                ),
                              ),
                            ),
                          ),
                        ),
                      ),
                    ),
                  ),
                ),
              ),
            ),
          ),
        ),
      ),
    ),
  );
}

pub shaped : IsShaped hunter.inventory
shaped = (
  omega arith,
  (
    omega arith,
    (
      omega arith,
      (
        omega arith,
        (
          omega arith,
          (
            omega arith,
            (
              omega arith,
              (
                omega arith,
                (
                  omega arith,
                  (
                    omega arith,
                    (
                      omega arith,
                      (
                        omega arith,
                        (
                          omega arith,
                          (
                            omega arith,
                            (
                              omega arith,
                              (
                                omega arith,
                                (
                                  omega arith,
                                  (
                                    omega arith,
                                    (
                                      omega arith,
                                      (
                                        omega arith,
                                        (
                                          omega arith,
                                          (
                                            omega arith,
                                            (
                                              omega arith,
                                              (
                                                omega arith,
                                                (
                                                  omega arith,
                                                  (
                                                    omega arith,
                                                    (
                                                      omega arith,
                                                      (
                                                        omega arith,
                                                        (omega arith, (omega arith, tt)),
                                                      ),
                                                    ),
                                                  ),
                                                ),
                                              ),
                                            ),
                                          ),
                                        ),
                                      ),
                                    ),
                                  ),
                                ),
                              ),
                            ),
                          ),
                        ),
                      ),
                    ),
                  ),
                ),
              ),
            ),
          ),
        ),
      ),
    ),
  ),
)
