-- ===== src/Mag/Tests.antt =====
-- The theorems on mags at concrete mags, and runs of the functions.
use tethealla.Base.{◌≡◌, ◌↔◌, refl, [], ◌∷◌, true, arith}
use tethealla.Base.Int.{pos}
use tethealla.Mag.Kind
use tethealla.Mag.{Mag, pb_exists, third_blast, add_pb, mag_alignment}
use tethealla.Mag.Alignment.{Aligned, mag_alignment-Aligned}
use tethealla.Mag.HeldBlasts.{held, learn, blasts_ok, add_pb-learn}
use tethealla.Mag.Classes.{Evolved}
use tethealla.Mag.Evolve.{check_mag_evolution, mag_lv35_evolution}
use tethealla.Mag.Feed.{feed_mag_with}
use tethealla.Mag.Steps.{stage, check_mag_evolution-Evolved}
use tethealla.Mag.Growth.{IsTame, feed_mag_with-IsTame}

-- A Varuna of level 34, close to the next
abbrev varuna : Mag
varuna = record {
  mtype = Kind.varuna;
  level = 34;
  blasts = 0;
  defense = pos 500;
  power = pos 2699;
  dex = pos 250;
  mind = pos 190;
  itemid = 65540;
  synchro = pos 118;
  iq = 90;
  pb_flags = 1;
  color = 3;
}

varuna-IsTame : IsTame varuna
varuna-IsTame = record {
  positive = (refl, (refl, (refl, refl)));
  level_sum = omega arith;
  level_bound = omega arith;
  synchro_bound = (refl, omega arith);
  iq_bound = omega arith;
}

feed_mag_with-IsTame_example : IsTame (feed_mag_with 3 0 1 varuna)
feed_mag_with-IsTame_example = feed_mag_with-IsTame 3 0 1 varuna (omega arith) varuna-IsTame

check_mag_evolution-Evolved_example : Evolved (stage 1 34) varuna (check_mag_evolution 3 0 1 varuna)
check_mag_evolution-Evolved_example = check_mag_evolution-Evolved 3 0 1 varuna

-- At level 35 it becomes a Rudra, whose blast is Golla.
evolves_35 : (check_mag_evolution 3 0 1 (record varuna { level = 35 })).mtype ≡ Kind.rudra
unfolding check_mag_evolution mag_lv35_evolution mag_alignment
evolves_35 = refl

add_pb-learn_example :
    (blasts_ok (add_pb 1 0 2).0 (add_pb 1 0 2).1 ≡ true)
    × (held (add_pb 1 0 2).0 (add_pb 1 0 2).1 ≡ learn 2 (held 1 0))
unfolding blasts_ok held
add_pb-learn_example = add_pb-learn 1 0 2 refl (omega arith)

third_learnt : held (add_pb 3 0x28 2).0 (add_pb 3 0x28 2).1 ≡ 0 ∷ 5 ∷ 2 ∷ []
unfolding held add_pb pb_exists third_blast
third_learnt = refl

mag_alignment-Aligned_example : (mag_alignment varuna ≡ 0x08) ↔ Aligned varuna 0x08
mag_alignment-Aligned_example = mag_alignment-Aligned varuna 0x08
