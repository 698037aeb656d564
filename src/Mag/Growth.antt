-- ===== src/Mag/Growth.antt =====
-- What `FeedMag` keeps true of a mag: its level is the sum of the levels of its stats.
use tethealla.Base.{
  ℕ, ◌+◌, ◌*◌, ◌/◌, ◌≤◌, ◌<◌, ◌≡◌, ◌⊎◌, refl, Bool, true, false, ◌&&◌, ◌||◌, ltb, leb, arith,
}
use tethealla.Base.Bits.{all_below, all_below_sound}
use tethealla.Base.Int.{ℤ, pos, negsuc, pos_part, neg_part, ◌+ℤ◌}
use tethealla.Mag.Feed.{
  grow, feed_class, feed_table, feed_senses, grow_defense, grow_power, grow_dex, grow_mind,
  feed_mag_with, checked, ft_at, foods,
}
use tethealla.Mag.Steps.{check_mag_evolution-Evolved}
use tethealla.Mag.Classes.{Evolved}
use tethealla.Mag.{Mag}

-- A change by at most 100 points, as an entry of the feeding tables holds it: up, or, past
-- 65435, down.
abbrev Small : ℕ → Type 0
Small c = (c ≤ 100) ⊎ ((65436 ≤ c) × (c < 65536))

-- The level of a stat
abbrev pub level_of : ℤ → ℕ
level_of s = pos_part s / 100

-- A mag in order: no stat is negative, its level is the sum of the levels of its stats, and it is
-- 200 at most; the synchro is at most 120 and the IQ at most 200.
pub record IsTame (m : Mag) : Type 0 where
  pub positive :
      (neg_part m.defense ≡ 0)
      × ((neg_part m.power ≡ 0) × ((neg_part m.dex ≡ 0) × (neg_part m.mind ≡ 0)))
  pub level_sum : m.level ≡ level_of m.defense + level_of m.power + level_of m.dex + level_of m.mind
  pub level_bound : m.level ≤ 200
  pub synchro_bound : (neg_part m.synchro ≡ 0) × (pos_part m.synchro ≤ 120)
  pub iq_bound : m.iq ≤ 200

-- "Add Defense": the level gains what the stat's level gains.
grow_lem :
    (n level c : ℕ)
    → n < 20100
    → level ≤ 200
    → n / 100 ≤ level
    → Small c
    → (neg_part (grow (pos n) level (pos c)).stat ≡ 0)
      × ((level_of (grow (pos n) level (pos c)).stat + level
            ≡ n / 100 + (grow (pos n) level (pos c)).level)
          × ((grow (pos n) level (pos c)).level ≤ 200))
unfolding grow ◌+ℤ◌
grow_lem n level c hn hl hk hc = ground arith

grown :
    (s : ℤ) (level c : ℕ)
    → neg_part s ≡ 0
    → level ≤ 200
    → level_of s ≤ level
    → Small c
    → (neg_part (grow s level (pos c)).stat ≡ 0)
      × ((level_of (grow s level (pos c)).stat + level ≡ level_of s + (grow s level (pos c)).level)
          × ((grow s level (pos c)).level ≤ 200))
grown (pos n) level c h hl hk hc = grow_lem n level c (omega arith) hl hk hc
grown (negsuc n) level c h hl hk hc = absurd (omega arith)

Evolved-IsTame : {c : ℕ} {m m' : Mag} → Evolved c m m' → IsTame m → IsTame m'
Evolved-IsTame Evolved.stays t = t
Evolved-IsTame (Evolved.evolves k f b h) t = record {
  positive = t.positive;
  level_sum = t.level_sum;
  level_bound = t.level_bound;
  synchro_bound = t.synchro_bound;
  iq_bound = t.iq_bound;
}

checked-IsTame :
    (section type ec : ℕ) (reached : Bool) (m : Mag)
    → IsTame m
    → IsTame (checked section type ec reached m)
checked-IsTame section type ec true m t =
    Evolved-IsTame (check_mag_evolution-Evolved section type ec m) t
checked-IsTame section type ec false m t = t

module _ (section type ec c : ℕ) (small : Small c) (m : Mag) (t : IsTame m) where
  grow_defense-IsTame : IsTame (grow_defense section type ec (pos c) m)
  unfolding grow_defense
  grow_defense-IsTame =
      let sum = t.level_sum in
      let bound = t.level_bound in
      let g = grown m.defense m.level c t.positive.0 bound (omega arith) small in
      checked-IsTame section type ec (grow m.defense m.level (pos c)).reached
        (record m {
          defense = (grow m.defense m.level (pos c)).stat;
          level = (grow m.defense m.level (pos c)).level;
        })
        (record {
          positive = (g.0, (t.positive.1.0, (t.positive.1.1.0, t.positive.1.1.1)));
          level_sum = omega arith;
          level_bound = g.1.1;
          synchro_bound = t.synchro_bound;
          iq_bound = t.iq_bound;
        })

  grow_power-IsTame : IsTame (grow_power section type ec (pos c) m)
  unfolding grow_power
  grow_power-IsTame =
      let sum = t.level_sum in
      let bound = t.level_bound in
      let g = grown m.power m.level c t.positive.1.0 bound (omega arith) small in
      checked-IsTame section type ec (grow m.power m.level (pos c)).reached
        (record m {
          power = (grow m.power m.level (pos c)).stat;
          level = (grow m.power m.level (pos c)).level;
        })
        (record {
          positive = (t.positive.0, (g.0, (t.positive.1.1.0, t.positive.1.1.1)));
          level_sum = omega arith;
          level_bound = g.1.1;
          synchro_bound = t.synchro_bound;
          iq_bound = t.iq_bound;
        })

  grow_dex-IsTame : IsTame (grow_dex section type ec (pos c) m)
  unfolding grow_dex
  grow_dex-IsTame =
      let sum = t.level_sum in
      let bound = t.level_bound in
      let g = grown m.dex m.level c t.positive.1.1.0 bound (omega arith) small in
      checked-IsTame section type ec (grow m.dex m.level (pos c)).reached
        (record m {
          dex = (grow m.dex m.level (pos c)).stat;
          level = (grow m.dex m.level (pos c)).level;
        })
        (record {
          positive = (t.positive.0, (t.positive.1.0, (g.0, t.positive.1.1.1)));
          level_sum = omega arith;
          level_bound = g.1.1;
          synchro_bound = t.synchro_bound;
          iq_bound = t.iq_bound;
        })

  grow_mind-IsTame : IsTame (grow_mind section type ec (pos c) m)
  unfolding grow_mind
  grow_mind-IsTame =
      let sum = t.level_sum in
      let bound = t.level_bound in
      let g = grown m.mind m.level c t.positive.1.1.1 bound (omega arith) small in
      checked-IsTame section type ec (grow m.mind m.level (pos c)).reached
        (record m {
          mind = (grow m.mind m.level (pos c)).stat;
          level = (grow m.mind m.level (pos c)).level;
        })
        (record {
          positive = (t.positive.0, (t.positive.1.0, (t.positive.1.1.0, g.0)));
          level_sum = omega arith;
          level_bound = g.1.1;
          synchro_bound = t.synchro_bound;
          iq_bound = t.iq_bound;
        })

feed_senses-IsTame : (a b : ℤ) (m : Mag) → IsTame m → IsTame (feed_senses a b m)
unfolding feed_senses ◌+ℤ◌
feed_senses-IsTame a b m t = record {
  positive = t.positive;
  level_sum = t.level_sum;
  level_bound = t.level_bound;
  synchro_bound = ground arith;
  iq_bound = ground arith;
}

small : ℤ → Bool
small z = leb (pos_part z) 100 || (leb 65436 (pos_part z) && ltb (pos_part z) 65536)

entry : ℕ → ℕ → Bool
entry t k = small (ft_at (feed_table t) k)

column : ℕ → Bool
column t = all_below 66 (entry t)

all_small : all_below 8 column ≡ true
unfolding column entry small all_below feed_table
all_small = refl

ft_at-Small : (t k : ℕ) → t < 8 → k < 66 → Small (pos_part (ft_at (feed_table t) k))
unfolding column entry small
ft_at-Small t k ht hk =
    let e = all_below_sound 66 (entry t) k (all_below_sound 8 column t all_small ht) hk in
    ground arith

feed_class-bound : (t : ℕ) → (feed_class t).1 < 8
unfolding feed_class
feed_class-bound t = ground arith

-- Fed with a food of the tables, a mag in order stays in order, whatever it evolves to on the way.
pub feed_mag_with-IsTame :
    (section type food : ℕ) (m : Mag)
    → food < foods
    → IsTame m
    → IsTame (feed_mag_with section type food m)
unfolding feed_mag_with
feed_mag_with-IsTame section type food m h t =
    let (ec, n) = feed_class m.mtype in
    let k = food * 6 in
    let ht = feed_class-bound m.mtype in
    let t₁ = feed_senses-IsTame (ft_at (feed_table n) k) (ft_at (feed_table n) (k + 1)) m t in
    let t₂ = grow_defense-IsTame section type ec _ (ft_at-Small n (k + 2) ht (omega arith)) _ t₁ in
    let t₃ = grow_power-IsTame section type ec _ (ft_at-Small n (k + 3) ht (omega arith)) _ t₂ in
    let t₄ = grow_dex-IsTame section type ec _ (ft_at-Small n (k + 4) ht (omega arith)) _ t₃ in
    grow_mind-IsTame section type ec _ (ft_at-Small n (k + 5) ht (omega arith)) _ t₄
