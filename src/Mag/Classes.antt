-- ===== src/Mag/Classes.antt =====
-- What an evolution leaves of a mag, and the feeding class it leads to.
use tethealla.Base.{ℕ, ◌≡◌, refl, Bool, true, false, leb, ltb, if◌then◌else◌}
use tethealla.Base.Int.{pos}
use tethealla.Mag.Kind
use tethealla.Mag.Evolve
use tethealla.Mag.Level50
use tethealla.Mag.Feed.{feed_class}
use tethealla.Mag.{Mag, has, mag_alignment}

-- The mag that an evolution may leave: the same, or one of another type with other blasts, whose
-- feeding class is c at least.
pub data Evolved (c : ℕ) (m : Mag) : Mag → Type 0 where
  stays : Evolved c m m
  evolves :
      (kind flags blasts : ℕ)
      → leb c (feed_class kind).0 ≡ true
      → Evolved c m (record m { mtype = kind; pb_flags = flags; blasts = blasts })

pub either :
    {c : ℕ} {m x y : Mag} (b : Bool)
    → Evolved c m x
    → Evolved c m y
    → Evolved c m (if b then x else y)
either true h k = h
either false h k = k

pub mag_lv10_evolution-Evolved :
    (type : ℕ) (m : Mag) → Evolved 1 m (Evolve.mag_lv10_evolution type m)
unfolding Evolve.mag_lv10_evolution feed_class
mag_lv10_evolution-Evolved type m =
    either (Level50.is_hunter type) (Evolved.evolves Kind.varuna _ _ refl) (
      either (Level50.is_ranger type) (Evolved.evolves Kind.kalki _ _ refl)
        (either (Level50.is_force type) (Evolved.evolves Kind.vritra _ _ refl) Evolved.stays))

pub mag_lv35_evolution-Evolved :
    (section type evolution_class : ℕ) (m : Mag)
    → Evolved 2 m (Evolve.mag_lv35_evolution section type evolution_class m)
unfolding Evolve.mag_lv35_evolution feed_class
mag_lv35_evolution-Evolved section type evolution_class m =
    either (ltb 3 evolution_class) Evolved.stays (
      either (Level50.is_hunter type)
        (either (has (mag_alignment m) 0x108) (Evolved.evolves Kind.rudra _ _ refl) (
          either (has (mag_alignment m) 0x10) (Evolved.evolves Kind.marutah _ _ refl) (
            either (has (mag_alignment m) 0x20) (Evolved.evolves Kind.vayu _ _ refl)
              Evolved.stays)))
        (either (Level50.is_ranger type)
          (either (has (mag_alignment m) 0x110) (Evolved.evolves Kind.mitra _ _ refl) (
            either (has (mag_alignment m) 0x08) (Evolved.evolves Kind.surya _ _ refl) (
              either (has (mag_alignment m) 0x20) (Evolved.evolves Kind.tapas _ _ refl)
                Evolved.stays)))
          (either (Level50.is_force type)
            (either (has (mag_alignment m) 0x120) (Evolved.evolves Kind.namuci _ _ refl) (
              either (has (mag_alignment m) 0x08) (Evolved.evolves Kind.sumba _ _ refl) (
                either (has (mag_alignment m) 0x10) (Evolved.evolves Kind.ashvinau _ _ refl)
                  Evolved.stays)))
            Evolved.stays)))

lv50_hunter-Evolved :
    (alignment section : ℕ) (m : Mag) → Evolved 3 m (Level50.lv50_hunter alignment section m)
unfolding Level50.lv50_hunter feed_class
lv50_hunter-Evolved alignment section m =
    either (has alignment 0x108)
      (either (Level50.odd_id section)
        (either (Level50.gtz (Level50.levels m.mind) (Level50.levels m.dex))
          (Evolved.evolves Kind.apsaras _ _ refl) (Evolved.evolves Kind.kama _ _ refl))
        (either (Level50.gtz (Level50.levels m.mind) (Level50.levels m.dex))
          (Evolved.evolves Kind.bhirava _ _ refl) (Evolved.evolves Kind.varaha _ _ refl)))
      (either (has alignment 0x10)
        (either (Level50.odd_id section)
          (either (Level50.gtz (Level50.levels m.power) (Level50.levels m.mind))
            (Evolved.evolves Kind.garuda _ _ refl) (Evolved.evolves Kind.yaksa _ _ refl))
          (either (Level50.gtz (Level50.levels m.power) (Level50.levels m.mind))
            (Evolved.evolves Kind.ila _ _ refl) (Evolved.evolves Kind.nandin _ _ refl)))
        (either (has alignment 0x20)
          (either (Level50.odd_id section)
            (either (Level50.gtz (Level50.levels m.dex) (Level50.levels m.power))
              (Evolved.evolves Kind.soma _ _ refl) (Evolved.evolves Kind.bana _ _ refl))
            (either (Level50.gtz (Level50.levels m.dex) (Level50.levels m.power))
              (Evolved.evolves Kind.ushasu _ _ refl) (Evolved.evolves Kind.kabanda _ _ refl)))
          Evolved.stays))

lv50_ranger-Evolved :
    (alignment section : ℕ) (m : Mag) → Evolved 3 m (Level50.lv50_ranger alignment section m)
unfolding Level50.lv50_ranger feed_class
lv50_ranger-Evolved alignment section m =
    either (has alignment 0x110)
      (either (Level50.odd_id section)
        (either (Level50.gtz (Level50.levels m.power) (Level50.levels m.mind))
          (Evolved.evolves Kind.kaitabha _ _ refl) (Evolved.evolves Kind.varaha _ _ refl))
        (either (Level50.gtz (Level50.levels m.power) (Level50.levels m.mind))
          (Evolved.evolves Kind.bhirava _ _ refl) (Evolved.evolves Kind.kama _ _ refl)))
      (either (has alignment 0x08)
        (either (Level50.odd_id section)
          (either (Level50.gtz (Level50.levels m.mind) (Level50.levels m.dex))
            (Evolved.evolves Kind.kaitabha _ _ refl) (Evolved.evolves Kind.madhu _ _ refl))
          (either (Level50.gtz (Level50.levels m.mind) (Level50.levels m.dex))
            (Evolved.evolves Kind.bhirava _ _ refl) (Evolved.evolves Kind.kama _ _ refl)))
        (either (has alignment 0x20)
          (either (Level50.odd_id section)
            (either (Level50.gtz (Level50.levels m.dex) (Level50.levels m.power))
              (Evolved.evolves Kind.durga _ _ refl) (Evolved.evolves Kind.kabanda _ _ refl))
            (either (Level50.gtz (Level50.levels m.dex) (Level50.levels m.power))
              (Evolved.evolves Kind.apsaras _ _ refl) (Evolved.evolves Kind.varaha _ _ refl)))
          Evolved.stays))

lv50_force-Evolved :
    (alignment section : ℕ) (m : Mag) → Evolved 3 m (Level50.lv50_force alignment section m)
unfolding Level50.lv50_force feed_class
lv50_force-Evolved alignment section m =
    either (has alignment 0x120)
      (either (Level50.gtz (Level50.levels m.defense) (pos 44)) (Evolved.evolves Kind.bana _ _ refl)
        (either (Level50.odd_id section)
          (either (Level50.gtz (Level50.levels m.dex) (Level50.levels m.power))
            (Evolved.evolves Kind.ila _ _ refl) (Evolved.evolves Kind.kumara _ _ refl))
          (either (Level50.gtz (Level50.levels m.dex) (Level50.levels m.power))
            (Evolved.evolves Kind.kabanda _ _ refl) (Evolved.evolves Kind.naga _ _ refl))))
      (either (has alignment 0x08)
        (either (Level50.gtz (Level50.levels m.defense) (pos 44))
          (Evolved.evolves Kind.andhaka _ _ refl)
          (either (Level50.odd_id section)
            (either (Level50.gtz (Level50.levels m.mind) (Level50.levels m.dex))
              (Evolved.evolves Kind.naga _ _ refl) (Evolved.evolves Kind.marica _ _ refl))
            (either (Level50.gtz (Level50.levels m.mind) (Level50.levels m.dex))
              (Evolved.evolves Kind.ravana _ _ refl) (Evolved.evolves Kind.naraka _ _ refl))))
        (either (has alignment 0x10)
          (either (Level50.gtz (Level50.levels m.defense) (pos 44))
            (Evolved.evolves Kind.bana _ _ refl)
            (either (Level50.odd_id section)
              (either (Level50.gtz (Level50.levels m.power) (Level50.levels m.mind))
                (Evolved.evolves Kind.garuda _ _ refl) (Evolved.evolves Kind.bhirava _ _ refl))
              (either (Level50.gtz (Level50.levels m.power) (Level50.levels m.mind))
                (Evolved.evolves Kind.ribhava _ _ refl) (Evolved.evolves Kind.sita _ _ refl))))
          Evolved.stays))

pub mag_lv50_evolution-Evolved :
    (section type evolution_class : ℕ) (m : Mag)
    → Evolved 3 m (Level50.mag_lv50_evolution section type evolution_class m)
unfolding Level50.mag_lv50_evolution
mag_lv50_evolution-Evolved section type evolution_class m =
    either (ltb 3 evolution_class) Evolved.stays (
      either (Level50.is_hunter type) (lv50_hunter-Evolved (mag_alignment m) section m) (
        either (Level50.is_ranger type) (lv50_ranger-Evolved (mag_alignment m) section m) (
          either (Level50.is_force type) (lv50_force-Evolved (mag_alignment m) section m)
            Evolved.stays)))
