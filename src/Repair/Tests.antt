-- ===== src/Repair/Tests.antt =====
-- The theorems on the repair of mags at concrete mags, and runs of the functions.
use tethealla.Base.{◌≡◌, refl, [], ◌∷◌, arith, drop}
use tethealla.Base.Int.{pos, negsuc}
use tethealla.Item.{Item}
use tethealla.Mag.{Mag}
use tethealla.Mag.Feed.{feed_mag_with}
use tethealla.Repair.{fix_mag, fix_weapon, read_percents, reset_percents, rebuild_percents}
use tethealla.Repair.Mags.{IsSound, fix_mag_lem, fix_mag-feed_mag_with}

abbrev grown : Mag
grown = record {
  mtype = 0;
  level = 7;
  blasts = 0;
  defense = pos 599;
  power = pos 220;
  dex = pos 0;
  mind = pos 0;
  itemid = 65540;
  synchro = pos 119;
  iq = 199;
  pb_flags = 0;
  color = 3;
}

-- A mag that claims more than it can have
abbrev forged : Mag
forged = record grown { level = 201; power = negsuc 4; synchro = negsuc 1 }

fix_mag_lem_example : IsSound (fix_mag forged) × (fix_mag (fix_mag forged) ≡ fix_mag forged)
fix_mag_lem_example = fix_mag_lem forged

fix_mag-feed_mag_with_example : fix_mag (feed_mag_with 1 0 2 grown) ≡ feed_mag_with 1 0 2 grown
fix_mag-feed_mag_with_example = fix_mag-feed_mag_with 1 0 2 grown (omega arith) (record {
  positive = (refl, (refl, (refl, refl)));
  level_sum = omega arith;
  level_bound = omega arith;
  synchro_bound = (refl, omega arith);
  iq_bound = omega arith;
})

-- A percent of 101 is dropped, and the others are put in the order of their kinds.
abbrev sword : Item
sword = record {
  data_bytes = 0 ∷ 1 ∷ 0 ∷ 0 ∷ 0 ∷ 0 ∷ 5 ∷ 20 ∷ 1 ∷ 101 ∷ 2 ∷ 35 ∷ [];
  itemid = 65541;
  data2 = 0 ∷ 0 ∷ 0 ∷ 0 ∷ [];
}

reorders : drop 6 (fix_weapon sword).data_bytes ≡ 2 ∷ 35 ∷ 5 ∷ 20 ∷ 0 ∷ 0 ∷ []
unfolding fix_weapon read_percents reset_percents rebuild_percents
reorders = refl
