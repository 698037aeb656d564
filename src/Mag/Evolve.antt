-- ===== src/Mag/Evolve.antt =====
-- The evolution of mags: `MagSpecialEvolution`, `MagLV35Evolution`, `MagLV10Evolution` and
-- `CheckMagEvolution` of ship_server.c. The code of a class and a section id are bytes; every function
-- returns the mag.
use tethealla.Base.{ℕ, ◌%◌, Bool, not, ◌&&◌, ◌||◌, ltb, leb, ◌==◌, if◌then◌else◌}
use tethealla.Base.Int.{◌+ℤ◌, eqz}
use tethealla.Mag.Kind
use tethealla.Mag.Blast
use tethealla.Mag.{Mag, has, mag_alignment}
use tethealla.Mag.Level50.{evolve, is_hunter, is_ranger, is_force, levels, mag_lv50_evolution}

-- `MagLV35Evolution`
unfoldable pub mag_lv35_evolution : ℕ → ℕ → ℕ → Mag → Mag
mag_lv35_evolution section type evolution_class m =
    let alignment = mag_alignment m in
    if ltb 3 evolution_class
    then m
    else if is_hunter type
    then (if has alignment 0x108
        then evolve Kind.rudra Blast.golla m
        else if has alignment 0x10
        then evolve Kind.marutah Blast.pilla m
        else if has alignment 0x20
        then evolve Kind.vayu Blast.mylla_youlla m
        else m)
    else if is_ranger type
    then (if has alignment 0x110
        then evolve Kind.mitra Blast.pilla m
        else if has alignment 0x08
        then evolve Kind.surya Blast.golla m
        else if has alignment 0x20
        then evolve Kind.tapas Blast.mylla_youlla m
        else m)
    else if is_force type
    then (if has alignment 0x120
        then evolve Kind.namuci Blast.mylla_youlla m
        else if has alignment 0x08
        then evolve Kind.sumba Blast.golla m
        else if has alignment 0x10
        then evolve Kind.ashvinau Blast.pilla m
        else m)
    else m

-- `MagLV10Evolution`
unfoldable pub mag_lv10_evolution : ℕ → Mag → Mag
mag_lv10_evolution type m =
    if is_hunter type
    then evolve Kind.varuna Blast.farlla m
    else if is_ranger type
    then evolve Kind.kalki Blast.estlla m
    else if is_force type
    then evolve Kind.vritra Blast.leilla m
    else m

-- A `switch` of `MagSpecialEvolution` on the class, with the type of mag for each of its six pairs
unfoldable pub special_kind : ℕ → ℕ → ℕ → ℕ → ℕ → ℕ → ℕ → ℕ → ℕ
special_kind type old humar hunewearl ramar racaseal fonewm fonewearl =
    if type == 0x00 || type == 0x02
    then humar
    else if type == 0x01 || type == 0x09
    then hunewearl
    else if type == 0x03 || type == 0x04
    then ramar
    else if type == 0x05 || type == 0x0b
    then racaseal
    else if type == 0x07 || type == 0x0a
    then fonewm
    else if type == 0x08 || type == 0x06
    then fonewearl
    else old

-- `MagSpecialEvolution`: the mag, and whether its type has changed.
unfoldable pub mag_special_evolution : ℕ → ℕ → Mag → Mag × Bool
unfolding special_kind
mag_special_evolution section type m =
    let defense = levels m.defense in
    let power = levels m.power in
    let dex = levels m.dex in
    let mind = levels m.mind in
    let old = m.mtype in
    let kind =
      if ltb m.level 100
      then old
      else if section == 0 || (section == 3 || (section == 6 || section == 9))
      then (if eqz (defense +ℤ dex) (power +ℤ mind)
          then special_kind type old Kind.deva Kind.savitri Kind.pushan Kind.rukmin Kind.nidra
              Kind.sato
          else old)
      else if section == 2 || (section == 5 || section == 8)
      then (if eqz (defense +ℤ power) (dex +ℤ mind)
          then special_kind type old Kind.rati Kind.savitri Kind.pushan Kind.dewari Kind.nidra
              Kind.bhima
          else old)
      else if section == 1 || (section == 7 || section == 4)
      then (if eqz (defense +ℤ mind) (power +ℤ dex)
          then special_kind type old Kind.rati Kind.savitri Kind.pushan Kind.rukmin Kind.nidra
              Kind.bhima
          else old)
      else old in
    (record m { mtype = kind }, not (old == kind))

-- `CheckMagEvolution`
unfoldable pub check_mag_evolution : ℕ → ℕ → ℕ → Mag → Mag
check_mag_evolution section type evolution_class m =
    if ltb m.level 10 || leb 35 m.level
    then (if ltb m.level 35 || leb 50 m.level
        then (if leb 50 m.level && (m.level % 5 == 0 && leb evolution_class 3)
            then (let (m', changed) = mag_special_evolution section type m in
                if changed then m' else mag_lv50_evolution section type evolution_class m')
            else m)
        else if ltb evolution_class 2
        then mag_lv35_evolution section type evolution_class m
        else m)
    else if evolution_class == 0
    then mag_lv10_evolution type m
    else m
