-- ===== src/Mag.antt =====
-- Mags: `MAG` of ship_server/def_structs.h, and `AddPB` and `MagAlignment` of ship_server.c.
pub mod Kind
pub mod Blast
pub mod FeedTables
pub mod Level50
pub mod Evolve
pub mod Layout
pub mod Alignment
pub mod HeldBlasts
pub mod Classes
pub mod Steps
pub mod Feed
pub mod Growth
mod Tests
use tethealla.Base.{
  ℕ, ◌+◌, ◌-◌, ◌*◌, ◌/◌, ◌%◌, List, [], ◌∷◌, Bool, true, false, not, ◌&&◌, ◌||◌, bit_and, bit_or,
  ltb, leb, ◌==◌, if◌then◌else◌,
}
use tethealla.Base.Int.{ℤ, pos, ltz, eqz}

-- `MAG`, without the byte that says that it is a mag
pub record Mag : Type 0 where
  pub mtype : ℕ
  pub level : ℕ
  pub blasts : ℕ
  pub defense : ℤ
  pub power : ℤ
  pub dex : ℤ
  pub mind : ℤ
  pub itemid : ℕ
  pub synchro : ℤ
  pub iq : ℕ
  pub pb_flags : ℕ
  pub color : ℕ

-- `(flags & mask) == mask`, for a mask of one bit
abbrev pub has : ℕ → ℕ → Bool
has flags mask = not (bit_and flags mask == 0)

-- `pb_exists` in `AddPB`
unfoldable pub pb_exists : ℕ → ℕ → ℕ → Bool
pb_exists flags blasts pb =
    has flags 0x01 && bit_and blasts 0x07 == pb
    || (has flags 0x02 && bit_and (blasts / 8) 0x07 == pb || has flags 0x04)

-- `pbv` in `AddPB`, a byte: the number of the blast among those that neither of the first two is.
unfoldable pub third_blast : ℕ → ℕ → ℕ
third_blast blasts pb =
    (pb
      + 256
      - (if ltb (bit_and blasts 0x07) pb then 1 else 0)
      - (if ltb (bit_and (blasts / 8) 0x07) pb then 1 else 0))
    % 256

-- `AddPB`: the flags and the blasts that it leaves.
unfoldable pub add_pb : ℕ → ℕ → ℕ → ℕ × ℕ
unfolding pb_exists third_blast
add_pb flags blasts pb =
    if pb_exists flags blasts pb
    then (flags, blasts)
    else if not (has flags 0x01)
    then (bit_or flags 0x01, bit_or (bit_and blasts 0xf8) pb)
    else if not (has flags 0x02)
    then (bit_or flags 0x02, bit_or (bit_and blasts 0xc7) (pb * 8 % 256))
    else (bit_or flags 0x04, bit_or (bit_and blasts 0x3f) (third_blast blasts pb * 0x40 % 256))

-- `MagAlignment`
unfoldable pub mag_alignment : Mag → ℕ
mag_alignment m =
    let v3 = m.power in
    let v2 = m.dex in
    let v1 = m.mind in
    let a = if ltz v2 v3 && ltz v1 v3 then 8 else 0 in
    let b = if ltz v3 v2 && ltz v1 v2 then bit_or a 0x10 else a in
    let c = if ltz v2 v1 && ltz v3 v1 then bit_or b 0x20 else b in
    let v5 = if not (ltz v2 v3) then v2 else v3 in
    let v5' = if not (ltz v1 v5) then v1 else v5 in
    let v6 =
      (if eqz v5' v3 then 1 else 0)
      + (if eqz v5' v2 then 1 else 0)
      + (if eqz v5' v1 then 1 else 0) in
    if leb 2 v6 then bit_or c 0x100 else c
