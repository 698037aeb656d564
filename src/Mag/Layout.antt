-- ===== src/Mag/Layout.antt =====
-- The cast `(MAG*) &item.data[0]`: the bytes of an item as a mag, and back.
use tethealla.Base.{ℕ, ◌+◌, ◌*◌, ◌/◌, ◌%◌, ◌≤◌, ◌<◌, ◌≡◌, [], ◌∷◌, arith, get_or}
use tethealla.Base.Int.{ℤ, pos, negsuc, pos_part, neg_part, to_unsigned, to_short, to_char}
use tethealla.Item.{Item, byte}
use tethealla.Mag.{Mag}

-- A `short` at `data[k]`
abbrev pub short_at : Item → ℕ → ℤ
short_at i k = to_short (pos (byte i k + 256 * byte i (k + 1)))

abbrev pub low_byte : ℤ → ℕ
low_byte a = to_unsigned 65536 a % 256

abbrev pub high_byte : ℤ → ℕ
high_byte a = to_unsigned 65536 a / 256

unfoldable pub load_mag : Item → Mag
load_mag i = record {
  mtype = byte i 1;
  level = byte i 2;
  blasts = byte i 3;
  defense = short_at i 4;
  power = short_at i 6;
  dex = short_at i 8;
  mind = short_at i 10;
  itemid = i.itemid;
  synchro = to_char (pos (get_or i.data2 0 0));
  iq = get_or i.data2 1 0;
  pb_flags = get_or i.data2 2 0;
  color = get_or i.data2 3 0;
}

unfoldable pub store_mag : ℕ → Mag → Item
store_mag two m = record {
  data_bytes =
      two
      ∷ m.mtype
      ∷ m.level
      ∷ m.blasts
      ∷ low_byte m.defense
      ∷ high_byte m.defense
      ∷ low_byte m.power
      ∷ high_byte m.power
      ∷ low_byte m.dex
      ∷ high_byte m.dex
      ∷ low_byte m.mind
      ∷ high_byte m.mind
      ∷ [];
  itemid = m.itemid;
  data2 = to_unsigned 256 m.synchro ∷ m.iq ∷ m.pb_flags ∷ m.color ∷ [];
}

-- The numbers that a `short` and a `char` hold.
abbrev pub IsShort : ℤ → Type 0
IsShort a = (pos_part a < 32768) × (neg_part a ≤ 32768)

abbrev pub IsChar : ℤ → Type 0
IsChar a = (pos_part a < 128) × (neg_part a ≤ 128)

short_bytes : (a : ℤ) → IsShort a → to_short (pos (low_byte a + 256 * high_byte a)) ≡ a
short_bytes (pos n) h = ground arith
short_bytes (negsuc n) h = ground arith

char_byte : (a : ℤ) → IsChar a → to_char (pos (to_unsigned 256 a)) ≡ a
char_byte (pos n) h = ground arith
char_byte (negsuc n) h = ground arith

-- A mag whose stats are in the range of `short`, and whose synchro is in that of `char`, is read
-- back from an item as it was written.
pub load_mag-store_mag :
    (two : ℕ) (m : Mag)
    → IsShort m.defense
    → IsShort m.power
    → IsShort m.dex
    → IsShort m.mind
    → IsChar m.synchro
    → load_mag (store_mag two m) ≡ m
unfolding load_mag store_mag
load_mag-store_mag two m hd hp hx hm hs = rw (
  short_bytes m.defense hd,
  short_bytes m.power hp,
  short_bytes m.dex hx,
  short_bytes m.mind hm,
  char_byte m.synchro hs,
)
