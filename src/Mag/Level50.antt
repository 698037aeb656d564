-- ===== src/Mag/Level50.antt =====
-- The steps that the evolutions of mags share, and `MagLV50Evolution` of ship_server.c. The code of a
-- class and a section id are bytes; every function returns the mag.
use tethealla.Base.{ℕ, Bool, not, ◌||◌, bit_and, ltb, ◌==◌, if◌then◌else◌}
use tethealla.Base.Int.{ℤ, pos, ltz, div_trunc}
use tethealla.Mag.Kind
use tethealla.Mag.Blast
use tethealla.Mag.{Mag, has, add_pb, mag_alignment}

-- `m->mtype = kind; AddPB (&m->PBflags, &m->blasts, pb);`
abbrev pub evolve : ℕ → ℕ → Mag → Mag
evolve kind pb m =
    let (flags, blasts) = add_pb m.pb_flags m.blasts pb in
    record m { mtype = kind; pb_flags = flags; blasts = blasts }

-- The `CLASS_` codes of a `switch` that go the same way: hunters, rangers and forces.
abbrev pub is_hunter : ℕ → Bool
is_hunter c = c == 0x00 || (c == 0x01 || (c == 0x02 || c == 0x09))

abbrev pub is_ranger : ℕ → Bool
is_ranger c = c == 0x03 || (c == 0x04 || (c == 0x05 || c == 0x0b))

abbrev pub is_force : ℕ → Bool
is_force c = c == 0x07 || (c == 0x08 || (c == 0x06 || c == 0x0a))

-- `sectionID & 1`
abbrev pub odd_id : ℕ → Bool
odd_id section = not (bit_and section 1 == 0)

-- `m->stat / 100`
abbrev pub levels : ℤ → ℤ
levels s = div_trunc s 100

abbrev pub gtz : ℤ → ℤ → Bool
gtz a b = ltz b a

-- The case of `MagLV50Evolution` for hunters
unfoldable pub lv50_hunter : ℕ → ℕ → Mag → Mag
lv50_hunter alignment section m =
    let v10 = levels m.power in
    let v11 = levels m.dex in
    let v12 = levels m.mind in
    if has alignment 0x108
    then (if odd_id section
        then (if gtz v12 v11
            then evolve Kind.apsaras Blast.estlla m
            else evolve Kind.kama Blast.pilla m)
        else (if gtz v12 v11
            then evolve Kind.bhirava Blast.pilla m
            else evolve Kind.varaha Blast.golla m))
    else if has alignment 0x10
    then (if odd_id section
        then (if gtz v10 v12
            then evolve Kind.garuda Blast.pilla m
            else evolve Kind.yaksa Blast.golla m)
        else (if gtz v10 v12
            then evolve Kind.ila Blast.mylla_youlla m
            else evolve Kind.nandin Blast.estlla m))
    else if has alignment 0x20
    then (if odd_id section
        then (if gtz v11 v10
            then evolve Kind.soma Blast.estlla m
            else evolve Kind.bana Blast.estlla m)
        else (if gtz v11 v10
            then evolve Kind.ushasu Blast.golla m
            else evolve Kind.kabanda Blast.mylla_youlla m))
    else m

-- The case for rangers
unfoldable pub lv50_ranger : ℕ → ℕ → Mag → Mag
lv50_ranger alignment section m =
    let v10 = levels m.power in
    let v11 = levels m.dex in
    let v12 = levels m.mind in
    if has alignment 0x110
    then (if odd_id section
        then (if gtz v10 v12
            then evolve Kind.kaitabha Blast.mylla_youlla m
            else evolve Kind.varaha Blast.golla m)
        else (if gtz v10 v12
            then evolve Kind.bhirava Blast.pilla m
            else evolve Kind.kama Blast.pilla m))
    else if has alignment 0x08
    then (if odd_id section
        then (if gtz v12 v11
            then evolve Kind.kaitabha Blast.mylla_youlla m
            else evolve Kind.madhu Blast.mylla_youlla m)
        else (if gtz v12 v11
            then evolve Kind.bhirava Blast.pilla m
            else evolve Kind.kama Blast.pilla m))
    else if has alignment 0x20
    then (if odd_id section
        then (if gtz v11 v10
            then evolve Kind.durga Blast.estlla m
            else evolve Kind.kabanda Blast.mylla_youlla m)
        else (if gtz v11 v10
            then evolve Kind.apsaras Blast.estlla m
            else evolve Kind.varaha Blast.golla m))
    else m

-- The case for forces
unfoldable pub lv50_force : ℕ → ℕ → Mag → Mag
lv50_force alignment section m =
    let v10 = levels m.power in
    let v11 = levels m.dex in
    let v12 = levels m.mind in
    let v13 = levels m.defense in
    if has alignment 0x120
    then (if gtz v13 (pos 44)
        then evolve Kind.bana Blast.estlla m
        else if odd_id section
        then (if gtz v11 v10
            then evolve Kind.ila Blast.mylla_youlla m
            else evolve Kind.kumara Blast.golla m)
        else (if gtz v11 v10
            then evolve Kind.kabanda Blast.mylla_youlla m
            else evolve Kind.naga Blast.mylla_youlla m))
    else if has alignment 0x08
    then (if gtz v13 (pos 44)
        then evolve Kind.andhaka Blast.estlla m
        else if odd_id section
        then (if gtz v12 v11
            then evolve Kind.naga Blast.mylla_youlla m
            else evolve Kind.marica Blast.pilla m)
        else (if gtz v12 v11
            then evolve Kind.ravana Blast.farlla m
            else evolve Kind.naraka Blast.golla m))
    else if has alignment 0x10
    then (if gtz v13 (pos 44)
        then evolve Kind.bana Blast.estlla m
        else if odd_id section
        then (if gtz v10 v12
            then evolve Kind.garuda Blast.pilla m
            else evolve Kind.bhirava Blast.pilla m)
        else (if gtz v10 v12
            then evolve Kind.ribhava Blast.farlla m
            else evolve Kind.sita Blast.pilla m))
    else m

-- `MagLV50Evolution`. An evolution class is an `int` that the callers set to 0, 1, 2, 3 or 4.
unfoldable pub mag_lv50_evolution : ℕ → ℕ → ℕ → Mag → Mag
mag_lv50_evolution section type evolution_class m =
    let alignment = mag_alignment m in
    if ltb 3 evolution_class
    then m
    else if is_hunter type
    then lv50_hunter alignment section m
    else if is_ranger type
    then lv50_ranger alignment section m
    else if is_force type
    then lv50_force alignment section m
    else m
