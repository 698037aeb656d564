-- ===== src/Mag/Feed.antt =====
-- `FeedMag` of ship_server.c.
use tethealla.Base.{
  ℕ, ◌+◌, ◌*◌, ◌/◌, ◌%◌, List, ◌∷◌, Bool, true, false, not, ◌&&◌, ◌||◌, Option, none, some, ltb,
  leb, ◌==◌, if◌then◌else◌, get_or,
}
use tethealla.Base.Int.{ℤ, pos, negsuc, ◌+ℤ◌, sub_ℕ, ltz, rem_trunc, to_unsigned, to_short, to_char}
use tethealla.Item.{Item, byte}
use tethealla.Game.{Client, World, send1a, find_index, slot, set_slot, has_id}
use tethealla.Inventory.Delete.{delete_item_from_client}
use tethealla.Mag.Kind
use tethealla.Mag.FeedTables.{
  feed_table0, feed_table1, feed_table2, feed_table3, feed_table4, feed_table5, feed_table6,
  feed_table7,
}
use tethealla.Mag.Layout.{load_mag, store_mag}
use tethealla.Mag.Evolve.{check_mag_evolution}
use tethealla.Mag.{Mag}

-- What the `switch` on the type of the mag sets: `EvolutionClass`, and the number of `ft`.
unfoldable pub feed_class : ℕ → ℕ × ℕ
feed_class t =
    if t == Kind.mag
    then (0, 0)
    else if t == Kind.varuna || (t == Kind.vritra || t == Kind.kalki)
    then (1, 1)
    else if t == Kind.ashvinau
        || (t == Kind.sumba || (t == Kind.namuci || (t == Kind.marutah || t == Kind.rudra)))
    then (2, 2)
    else if t == Kind.surya || (t == Kind.tapas || t == Kind.mitra)
    then (2, 3)
    else if t == Kind.apsaras
        || (t == Kind.vayu
            || (t == Kind.varaha
                || (t == Kind.ushasu
                    || (t == Kind.kama
                        || (t == Kind.kaitabha || (t == Kind.kumara || t == Kind.bhirava))))))
    then (3, 4)
    else if t == Kind.ila
        || (t == Kind.garuda
            || (t == Kind.sita
                || (t == Kind.soma
                    || (t == Kind.durga
                        || (t == Kind.nandin || (t == Kind.yaksa || t == Kind.ribhava))))))
    then (3, 5)
    else if t == Kind.andhaka
        || (t == Kind.kabanda
            || (t == Kind.naga
                || (t == Kind.naraka
                    || (t == Kind.bana
                        || (t == Kind.marica || (t == Kind.madhu || t == Kind.ravana))))))
    then (3, 6)
    else if t == Kind.deva || (t == Kind.rukmin || t == Kind.sato)
    then (4, 5)
    else if t == Kind.rati || (t == Kind.pushan || t == Kind.bhima)
    then (4, 6)
    else (4, 7)

-- The table of a number
unfoldable pub feed_table : ℕ → List ℤ
feed_table k =
    if k == 0
    then feed_table0
    else if k == 1
    then feed_table1
    else if k == 2
    then feed_table2
    else if k == 3
    then feed_table3
    else if k == 4
    then feed_table4
    else if k == 5
    then feed_table5
    else if k == 6
    then feed_table6
    else feed_table7

-- `ft[k]`, where `ft` points to `unsigned short`
abbrev pub ft_at : List ℤ → ℕ → ℤ
ft_at ft k = pos (to_unsigned 65536 (get_or ft k (pos 0)))

abbrev pub clamp : ℕ → ℤ → ℤ
clamp high v =
    let v' = if ltz v (pos 0) then pos 0 else v in if ltz (pos high) v' then pos high else v'

-- `( m->stat / 100 ) * 100`
abbrev pub hundreds : ℤ → ℤ
hundreds (pos n) = pos (n / 100 * 100)
hundreds (negsuc n) = sub_ℕ 0 ((n + 1) / 100 * 100)

-- "Add Defense" and its like: the stat and the level that follow, and whether a level was reached.
pub record Grown : Type 0 where
  pub stat : ℤ
  pub level : ℕ
  pub reached : Bool

unfoldable pub grow : ℤ → ℕ → ℤ → Grown
grow stat level change =
    let part = to_short (rem_trunc stat 100 +ℤ change) in
    let part' = if ltz part (pos 0) then pos 0 else part in
    if ltz part' (pos 100)
    then record { stat = to_short (hundreds stat +ℤ part'); level = level; reached = false }
    else if level == 200
    then record { stat = to_short (hundreds stat +ℤ pos 99); level = level; reached = true }
    else record {
      stat = to_short (hundreds stat +ℤ part');
      level = (level + 1) % 256;
      reached = true;
    }

-- The four stats in turn, each with its check for an evolution.
module _ (section type evolution_class : ℕ) where
  abbrev pub checked : Bool → Mag → Mag
  checked reached m = if reached then check_mag_evolution section type evolution_class m else m

  unfoldable pub grow_defense : ℤ → Mag → Mag
  grow_defense change m =
      let g = grow m.defense m.level change in
      checked g.reached (record m { defense = g.stat; level = g.level })

  unfoldable pub grow_power : ℤ → Mag → Mag
  grow_power change m =
      let g = grow m.power m.level change in
      checked g.reached (record m { power = g.stat; level = g.level })

  unfoldable pub grow_dex : ℤ → Mag → Mag
  grow_dex change m =
      let g = grow m.dex m.level change in
      checked g.reached (record m { dex = g.stat; level = g.level })

  unfoldable pub grow_mind : ℤ → Mag → Mag
  grow_mind change m =
      let g = grow m.mind m.level change in
      checked g.reached (record m { mind = g.stat; level = g.level })

-- `m->synchro += ft[0]` and `m->IQ += ft[1]`, with their clamps
unfoldable pub feed_senses : ℤ → ℤ → Mag → Mag
feed_senses synchro iq m = record m {
  synchro = clamp 120 (to_char (m.synchro +ℤ synchro));
  iq = to_unsigned 256 (clamp 200 (to_short (pos m.iq +ℤ iq)));
}

-- The mag's part of `FeedMag`, from the `switch` on its type on; `food` is `mt_index`.
unfoldable pub feed_mag_with : ℕ → ℕ → ℕ → Mag → Mag
feed_mag_with section type food m =
    let (evolution_class, table) = feed_class m.mtype in
    let ft = feed_table table in
    let k = food * 6 in
    let m₁ = feed_senses (ft_at ft k) (ft_at ft (k + 1)) m in
    let m₂ = grow_defense section type evolution_class (ft_at ft (k + 2)) m₁ in
    let m₃ = grow_power section type evolution_class (ft_at ft (k + 3)) m₂ in
    let m₄ = grow_dex section type evolution_class (ft_at ft (k + 4)) m₃ in
    grow_mind section type evolution_class (ft_at ft (k + 5)) m₄

-- `data[0] == 0x02 && data[1] <= Mag_Agastya`
abbrev pub is_mag : Item → Bool
is_mag i = byte i 0 == 0x02 && leb (byte i 1) Kind.agastya

-- What a mag eats
abbrev pub is_food : Item → Bool
is_food i =
    byte i 0 == 0x03 && (ltb (byte i 1) 0x07 && (not (byte i 1 == 0x02) && ltb 0 (byte i 5)))

-- `mt_index`; other values of `data[1]` are no food.
abbrev pub mt_index : Item → ℕ
mt_index i =
    if byte i 1 == 0
    then byte i 2
    else if byte i 1 == 1
    then 3 + byte i 2
    else if byte i 1 == 6
    then 6 + byte i 2
    else 5 + byte i 1

-- The two searches: the slot of the mag and of its food.
unfoldable pub find_meal : ℕ → ℕ → Client → Option (ℕ × ℕ)
find_meal magid itemid c = elim (find_index (has_id magid) c.inventory_use c.inventory) [
  | none ↦ none
  | some ch ↦
      if is_mag (slot c ch).item
      then elim (find_index (has_id itemid) c.inventory_use c.inventory) [
        | none ↦ none
        | some ch2 ↦ if is_food (slot c ch2).item then some (ch, ch2) else none
      ]
      else none
]

-- The mag in its slot, once the food is eaten: found again, or where it was.
unfoldable pub find_mag_again : ℕ → ℕ → Client → ℕ
find_mag_again magid found_mag c =
    elim (find_index (λ i. has_id magid i && is_mag i.item) c.inventory_use c.inventory) [
      | none ↦ found_mag
      | some ch ↦ ch
    ]

unfoldable pub feed_slot : ℕ → ℕ → ℕ → ℕ → Client → Client
feed_slot section type food ch c =
    let i = slot c ch in
    set_slot ch
      (record i {
        item = store_mag (byte i.item 0) (feed_mag_with section type food (load_mag i.item));
      })
      c

-- The foods of a table
abbrev pub foods : ℕ
foods = 11

-- `FeedMag`, for a character of the section id and the class; `none` is a read outside the feeding
-- table. The deletion of the food is `DeleteItemFromClient (itemid, 1, 0, client)`.
unfoldable pub feed_mag : ℕ → ℕ → ℕ → ℕ → World → Option World
feed_mag section type magid itemid w = elim (find_meal magid itemid w.client) [
  | none ↦ some (record w {
    client = record (w.client) { todc = true };
    sent = send1a "Could not find mag to feed or item to feed said mag." ∷ w.sent;
  })
  | some (found_mag, found_item) ↦
      let food = mt_index (slot w.client found_item).item in
      let w₁ = delete_item_from_client itemid 1 false w in
      let ch = find_mag_again magid found_mag w₁.client in
      if ltb food foods
      then some (record w₁ { client = feed_slot section type food ch w₁.client })
      else none
]
