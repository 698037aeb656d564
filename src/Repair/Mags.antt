-- ===== src/Repair/Mags.antt =====
-- What `FixItem` makes of mags.
use tethealla.Base.{
  ℕ, ◌+◌, ◌≤◌, ◌<◌, ◌≡◌, refl, subst, ap, ◌∙◌, Bool, true, false, inl, inr, arith, ltb, ◌||◌,
  if◌then◌else◌, Bool-cases, le→ltb,
}
use tethealla.Base.Int.{ℤ, pos, negsuc, pos_part, neg_part, ltz}
use tethealla.Mag.{Mag}
use tethealla.Mag.Level50.{levels}
use tethealla.Mag.Feed.{feed_mag_with, foods}
use tethealla.Mag.Growth.{IsTame, level_of, feed_mag_with-IsTame}
use tethealla.Repair.{fix_senses, total_levels, fix_mag}

-- A mag within the limits: no stat is negative, the levels of the stats are 200 in sum at most, and
-- so is its level; the synchro is at most 120 and the IQ at most 200.
pub record IsSound (m : Mag) : Type 0 where
  pub positive :
      (neg_part m.defense ≡ 0)
      × ((neg_part m.power ≡ 0) × ((neg_part m.dex ≡ 0) × (neg_part m.mind ≡ 0)))
  pub level_sum : level_of m.defense + level_of m.power + level_of m.dex + level_of m.mind ≤ 200
  pub level_bound : m.level ≤ 200
  pub synchro_bound : (neg_part m.synchro ≡ 0) × (pos_part m.synchro ≤ 120)
  pub iq_bound : m.iq ≤ 200

IsTame-IsSound : (m : Mag) → IsTame m → IsSound m
IsTame-IsSound m t =
    let sum = t.level_sum in
    let bound = t.level_bound in
    record {
      positive = t.positive;
      level_sum = omega arith;
      level_bound = bound;
      synchro_bound = t.synchro_bound;
      iq_bound = t.iq_bound;
    }

senses_bound :
    (m : Mag)
    → let m' = fix_senses m in
      ((neg_part m'.synchro ≡ 0) × (pos_part m'.synchro ≤ 120)) × (m'.iq ≤ 200)
unfolding fix_senses
senses_bound m = ground arith

level_of_pos : (a : ℤ) → neg_part a ≡ 0 → ltz a (pos 0) ≡ false
level_of_pos (pos n) h = ground arith
level_of_pos (negsuc n) h = absurd (omega arith)

pos_of : (a : ℤ) → ltz a (pos 0) ≡ false → neg_part a ≡ 0
pos_of (pos n) h = refl
pos_of (negsuc n) h = ground arith

-- The sum of levels of four stats, as `total_levels` takes it
abbrev stats_total : ℤ → ℤ → ℤ → ℤ → ℕ
stats_total a b c d =
    if ltz a (pos 0) || (ltz b (pos 0) || (ltz c (pos 0) || ltz d (pos 0)))
    then 201
    else level_of a + level_of b + level_of c + level_of d

level_part : (a : ℤ) → neg_part a ≡ 0 → pos_part (levels a) ≡ level_of a
level_part (pos n) h = refl
level_part (negsuc n) h = absurd (omega arith)

none_of :
    (a b c d : Bool)
    → (a || (b || (c || d))) ≡ false
    → (a ≡ false) × ((b ≡ false) × ((c ≡ false) × (d ≡ false)))
none_of true b c d h = cc
none_of false true c d h = cc
none_of false false true d h = cc
none_of false false false d h = (refl, (refl, (refl, h)))

total-stats : (m : Mag) → total_levels m ≡ stats_total m.defense m.power m.dex m.mind
unfolding total_levels
total-stats m =
    elim (Bool-cases (
      ltz m.defense (pos 0)
      || (ltz m.power (pos 0) || (ltz m.dex (pos 0) || ltz m.mind (pos 0))))) [
        | inl e ↦ rw e
        | inr e ↦
            let (a, (b, (c, d))) =
              none_of (ltz m.defense (pos 0)) (ltz m.power (pos 0)) (ltz m.dex (pos 0))
                (ltz m.mind (pos 0)) e in
            rw (
              e,
              level_part m.defense (pos_of m.defense a),
              level_part m.power (pos_of m.power b),
              level_part m.dex (pos_of m.dex c),
              level_part m.mind (pos_of m.mind d),
            )
      ]

-- A sum of 200 at most says that no stat is negative.
stats_bound :
    (a b c d : ℤ)
    → ltb 200 (stats_total a b c d) ≡ false
    → ((neg_part a ≡ 0) × ((neg_part b ≡ 0) × ((neg_part c ≡ 0) × (neg_part d ≡ 0))))
      × (level_of a + level_of b + level_of c + level_of d ≤ 200)
stats_bound a b c d h =
    elim (Bool-cases (ltz a (pos 0) || (ltz b (pos 0) || (ltz c (pos 0) || ltz d (pos 0))))) [
      | inl e ↦ let over : ltb 200 201 ≡ false = rw e at h in absurd (ground arith)
      | inr e ↦
          let (p, (q, (r, t))) =
            none_of (ltz a (pos 0)) (ltz b (pos 0)) (ltz c (pos 0)) (ltz d (pos 0)) e in
          let le : ltb 200 (level_of a + level_of b + level_of c + level_of d) ≡ false =
            rw e at h in
          ((pos_of a p, (pos_of b q, (pos_of c r, pos_of d t))), ground arith)
    ]

neither : (a b : Bool) → (a || b) ≡ false → (a ≡ false) × (b ≡ false)
neither true b h = cc
neither false b h = (refl, h)

-- Whatever a mag is, `FixItem` leaves it within the limits.
fix_mag-IsSound : (m : Mag) → IsSound (fix_mag m)
unfolding fix_mag
fix_mag-IsSound m =
    let m' = fix_senses m in
    let (synchro, iq) = senses_bound m in
    elim (Bool-cases (ltb 200 (total_levels m') || ltb 200 m'.level)) [
      | inl e ↦ rw e (record {
        positive = (refl, (refl, (refl, refl)));
        level_sum = omega arith;
        level_bound = omega arith;
        synchro_bound = (refl, omega arith);
        iq_bound = omega arith;
      })
      | inr e ↦
          let (few, low) = neither (ltb 200 (total_levels m')) (ltb 200 m'.level) e in
          let (positive, sum) =
            stats_bound m'.defense m'.power m'.dex m'.mind
              (subst (λ n. ltb 200 n ≡ false) (total-stats m') few) in
          rw e (record {
            positive = positive;
            level_sum = sum;
            level_bound = ground (arith, low);
            synchro_bound = synchro;
            iq_bound = iq;
          })
    ]

high_synchro : (a : ℤ) → neg_part a ≡ 0 → pos_part a ≤ 120 → ltz (pos 120) a ≡ false
high_synchro (pos n) h le = ground arith
high_synchro (negsuc n) h le = absurd (omega arith)

fix_senses_sound : (m : Mag) → IsSound m → fix_senses m ≡ m
unfolding fix_senses
fix_senses_sound m s =
    let (low, le) = s.synchro_bound in
    let iq : ltb 200 m.iq ≡ false = le→ltb 200 m.iq s.iq_bound in
    rw (high_synchro m.synchro low le, level_of_pos m.synchro low, iq)

sound_total :
    (m : Mag)
    → IsSound m
    → total_levels m ≡ level_of m.defense + level_of m.power + level_of m.dex + level_of m.mind
sound_total m s =
    let (a, (b, (c, d))) = s.positive in
    total-stats m
    ∙ rw (
      level_of_pos m.defense a,
      level_of_pos m.power b,
      level_of_pos m.dex c,
      level_of_pos m.mind d,
    )

kept : (m : Mag) → IsSound m → fix_mag m ≡ m
unfolding fix_mag
kept m s =
    let few : ltb 200 (total_levels m) ≡ false =
      ap (λ n. ltb 200 n) (sound_total m s) ∙ le→ltb 200 _ s.level_sum in
    let low : ltb 200 m.level ≡ false = le→ltb 200 m.level s.level_bound in
    rw (fix_senses_sound m s, few, low)

-- `FixItem` leaves every mag within the limits, and done again changes nothing.
pub fix_mag_lem : (m : Mag) → IsSound (fix_mag m) × (fix_mag (fix_mag m) ≡ fix_mag m)
fix_mag_lem m = (fix_mag-IsSound m, kept (fix_mag m) (fix_mag-IsSound m))

-- A mag in order, as `FeedMag` keeps it, that has been fed with a food of the tables goes through
-- `FixItem` unchanged.
pub fix_mag-feed_mag_with :
    (section type food : ℕ) (m : Mag)
    → food < foods
    → IsTame m
    → fix_mag (feed_mag_with section type food m) ≡ feed_mag_with section type food m
fix_mag-feed_mag_with section type food m h t =
    let fed = feed_mag_with section type food m in
    kept fed (IsTame-IsSound fed (feed_mag_with-IsTame section type food m h t))
