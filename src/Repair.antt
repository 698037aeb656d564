-- ===== src/Repair.antt =====
-- `FixItem` and `CheckMaxGrind` of ship_server.c, which bring the bytes of an item within their limits. The tables of
-- the armors and barriers are read at start; they are parameters.
pub mod Mags
mod Tests
use tethealla.Base.{
  ℕ, zero, suc, ◌+◌, ◌*◌, List, [], ◌∷◌, Bool, true, false, not, ◌&&◌, ◌||◌, Option, none, some,
  bit_and, ltb, ◌==◌, if◌then◌else◌, get_or, set, replicate,
}
use tethealla.Base.Int.{ℤ, pos, negsuc, pos_part, ltz, eqz, to_unsigned, to_char}
use tethealla.Item.{Item, InventoryItem, byte, set_byte}
use tethealla.Mag.{Mag}
use tethealla.Mag.Level50.{levels}
use tethealla.Mag.Layout.{load_mag, store_mag}

-- The synchro and the IQ of a mag, brought within their limits
unfoldable pub fix_senses : Mag → Mag
fix_senses m =
    let high = if ltz (pos 120) m.synchro then pos 120 else m.synchro in
    record m {
      synchro = if ltz high (pos 0) then pos 0 else high;
      iq = if ltb 200 m.iq then 200 else m.iq;
    }

-- `total_levels`
unfoldable pub total_levels : Mag → ℕ
total_levels m =
    if ltz m.defense (pos 0) || (ltz m.power (pos 0) || (ltz m.dex (pos 0) || ltz m.mind (pos 0)))
    then 201
    else pos_part (levels m.defense)
      + pos_part (levels m.power)
      + pos_part (levels m.dex)
      + pos_part (levels m.mind)

-- The part for mags: one that cannot be right is started anew.
unfoldable pub fix_mag : Mag → Mag
fix_mag m =
    let m' = fix_senses m in
    if ltb 200 (total_levels m') || ltb 200 m'.level
    then record m' {
      defense = pos 500;
      power = pos 0;
      dex = pos 0;
      mind = pos 0;
      level = 5;
      blasts = 0;
      iq = 0;
      synchro = pos 20;
      mtype = 0;
      pb_flags = 0;
    }
    else m'

-- `if (data[k] > limit) data[k] = limit;`
abbrev pub at_most : ℕ → ℕ → Item → Item
at_most k limit i = if ltb limit (byte i k) then set_byte i k limit else i

-- A percent of a weapon as it is saved
abbrev pub saved_percent : ℕ → ℤ
saved_percent b =
    let percent = to_char (pos b) in
    if ltz (pos 100) percent || ltz percent (negsuc 99) then pos 0 else percent

-- The loop that reads the percents, with the rounds left; `none` for an S-rank weapon.
unfoldable pub read_percents : ℕ → ℕ → Item → List ℤ → Option (List ℤ)
read_percents zero ch3 i table = some table
read_percents (suc n) ch3 i table =
    let kind = byte i ch3 in
    let rest = read_percents n (ch3 + 2) i (
      if not (kind == 0) && ltb kind 6
      then set table kind (saved_percent (byte i (ch3 + 1)))
      else table) in
    if not (bit_and kind 128 == 0) then none else rest

-- The loop that resets them
unfoldable pub reset_percents : ℕ → ℕ → Item → Item
reset_percents zero ch3 i = i
reset_percents (suc n) ch3 i = reset_percents n (ch3 + 2) (set_byte (set_byte i ch3 0) (ch3 + 1) 0)

-- The loop that rebuilds them, with the rounds left: `num_percents` are written.
unfoldable pub rebuild_percents : ℕ → ℕ → ℕ → ℕ → List ℤ → Item → Item
rebuild_percents zero ch3 num_percents max_percents table i = i
rebuild_percents (suc n) ch3 num_percents max_percents table i =
    let percent = get_or table ch3 (pos 0) in
    let written =
      set_byte (set_byte i (6 + num_percents * 2) ch3) (7 + num_percents * 2)
        (to_unsigned 256 percent) in
    let skipped = rebuild_percents n (ch3 + 1) num_percents max_percents table i in
    let gone_on = rebuild_percents n (ch3 + 1) (num_percents + 1) max_percents table written in
    if eqz percent (pos 0)
    then skipped
    else if num_percents + 1 == max_percents
    then written
    else gone_on

-- The part for weapons
unfoldable pub fix_weapon : Item → Item
fix_weapon i =
    let max_percents = if byte i 1 == 0x33 || byte i 1 == 0xab then 2 else 3 in
    elim (read_percents max_percents 6 i (replicate 6 (pos 0))) [
      | none ↦ i
      | some table ↦ rebuild_percents 5 1 0 max_percents table (reset_percents max_percents 6 i)
    ]

-- `FixItem`
module _
    (armor_dfpvar_table armor_evpvar_table barrier_dfpvar_table barrier_evpvar_table : ℕ → ℕ) where
  unfoldable pub fix_item : Item → Item
  fix_item i =
      let k = byte i 2 in
      if byte i 0 == 2
      then store_mag 2 (fix_mag (load_mag i))
      else if byte i 0 == 1
      then (if byte i 1 == 1
          then at_most 8 (armor_evpvar_table k) (at_most 6 (armor_dfpvar_table k) i)
          else if byte i 1 == 2
          then at_most 8 (barrier_evpvar_table k) (at_most 6 (barrier_dfpvar_table k) i)
          else i)
      else if byte i 0 == 0
      then fix_weapon i
      else i

-- `CheckMaxGrind`, with the table that is read at start
unfoldable pub check_max_grind : (ℕ → ℕ → ℕ) → InventoryItem → InventoryItem
check_max_grind grind_table i = record i {
  item = at_most 3 (grind_table (byte i.item 1) (byte i.item 2)) i.item;
}
