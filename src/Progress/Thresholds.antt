-- ===== src/Progress/Thresholds.antt =====
-- The table `tnlxp` of def_tables.h: the experience that each level ends at.
use tethealla.Base.{
  ℕ, ◌+◌, ◌<◌, ◌≡◌, refl, ap, List, [], ◌∷◌, true, arith, ltb, ltb→lt, get_or, suc, zero,
  Bool-cases, inl, inr, ==_iff, ◌==◌,
}
use tethealla.Base.Bits.{all_below, all_below_sound}

abbrev experience_table : List ℕ
experience_table =
    50 ∷ 150 ∷ 250 ∷ 350 ∷ 450 ∷ 550 ∷ 650 ∷ 750 ∷ 850 ∷ 950 ∷ 1050 ∷ 1150 ∷ 1250 ∷ 1398 ∷ 1579
    ∷ 1825 ∷ 2112 ∷ 2421 ∷ 2754 ∷ 3105 ∷ 3474 ∷ 3861 ∷ 4266 ∷ 4679 ∷ 5098 ∷ 5526 ∷ 5967 ∷ 6420
    ∷ 6881 ∷ 7349 ∷ 7828 ∷ 8316 ∷ 8817 ∷ 9329 ∷ 9855 ∷ 10388 ∷ 10927 ∷ 11478 ∷ 12042 ∷ 12617 ∷ 13200
    ∷ 13794 ∷ 14397 ∷ 15013 ∷ 15641 ∷ 16279 ∷ 16926 ∷ 17583 ∷ 18252 ∷ 18932 ∷ 19625 ∷ 20326 ∷ 21036
    ∷ 21758 ∷ 22492 ∷ 23233 ∷ 23989 ∷ 24753 ∷ 25522 ∷ 26302 ∷ 27093 ∷ 27892 ∷ 28702 ∷ 29521 ∷ 30352
    ∷ 31191 ∷ 32038 ∷ 32898 ∷ 33769 ∷ 34649 ∷ 35540 ∷ 36444 ∷ 37355 ∷ 38274 ∷ 39204 ∷ 40145 ∷ 41098
    ∷ 42060 ∷ 43031 ∷ 44010 ∷ 45011 ∷ 46033 ∷ 47076 ∷ 48147 ∷ 49251 ∷ 50384 ∷ 51553 ∷ 52764 ∷ 54021
    ∷ 55326 ∷ 56683 ∷ 58098 ∷ 59576 ∷ 61122 ∷ 62741 ∷ 64443 ∷ 66229 ∷ 68109 ∷ 70087 ∷ 72168 ∷ 76261
    ∷ 80550 ∷ 85041 ∷ 89730 ∷ 94620 ∷ 99715 ∷ 105106 ∷ 110799 ∷ 116798 ∷ 123098 ∷ 129696 ∷ 136593
    ∷ 143787 ∷ 151286 ∷ 159084 ∷ 167184 ∷ 175685 ∷ 184584 ∷ 193885 ∷ 203587 ∷ 213685 ∷ 223883
    ∷ 234179 ∷ 244577 ∷ 255076 ∷ 265672 ∷ 276368 ∷ 287165 ∷ 298061 ∷ 309059 ∷ 320159 ∷ 331356
    ∷ 342649 ∷ 354046 ∷ 365545 ∷ 377144 ∷ 388842 ∷ 400637 ∷ 412535 ∷ 424533 ∷ 436632 ∷ 448832
    ∷ 461134 ∷ 473538 ∷ 486045 ∷ 498650 ∷ 511352 ∷ 524152 ∷ 537053 ∷ 550053 ∷ 563155 ∷ 576360
    ∷ 589664 ∷ 603071 ∷ 616578 ∷ 630186 ∷ 643996 ∷ 658012 ∷ 672224 ∷ 686635 ∷ 701247 ∷ 716062
    ∷ 731074 ∷ 746285 ∷ 761701 ∷ 777423 ∷ 793449 ∷ 809873 ∷ 826700 ∷ 844048 ∷ 861986 ∷ 880613
    ∷ 899964 ∷ 920301 ∷ 941658 ∷ 964238 ∷ 988241 ∷ 1013827 ∷ 1041196 ∷ 1070387 ∷ 1103565 ∷ 1142725
    ∷ 1189775 ∷ 1246811 ∷ 1315744 ∷ 1398635 ∷ 1497718 ∷ 1614624 ∷ 1751532 ∷ 1910009 ∷ 2092175
    ∷ 2301028 ∷ 2537846 ∷ 2804676 ∷ 3108493 ∷ 3452189 ∷ 3842757 ∷ 4283324 ∷ 4812416 ∷ 99999999 ∷ []

-- `tnlxp[level]`
unfoldable pub tnlxp : ℕ → ℕ
tnlxp level = get_or experience_table level 0

rising_table : all_below 199 (λ level. ltb (tnlxp level) (tnlxp (level + 1))) ≡ true
unfolding all_below tnlxp
rising_table = refl

pub tnlxp-rises : (level : ℕ) → level < 199 → tnlxp level < tnlxp (level + 1)
tnlxp-rises level h =
    ltb→lt (tnlxp level) (tnlxp (level + 1))
      (all_below_sound 199 (λ level. ltb (tnlxp level) (tnlxp (level + 1))) level rising_table h)

-- The table rises strictly.
pub tnlxp_mono : (low high : ℕ) → low < high → high < 200 → tnlxp low < tnlxp high
tnlxp_mono low zero h b = elim h [ ]
tnlxp_mono low (suc high) h b =
    let step = tnlxp-rises high (omega arith) in
    let same : tnlxp (high + 1) ≡ tnlxp (suc high) = ap tnlxp (omega arith) in
    elim (Bool-cases (low == high)) [
      | inl e ↦ omega (arith, ap tnlxp ((==_iff low high).0 e))
      | inr ne ↦ omega (arith, tnlxp_mono low high (ground arith) (omega arith))
    ]
