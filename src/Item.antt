-- ===== src/Item.antt =====
-- The item structures of ship_server/def_structs.h, and the tests that ship_server.c makes on
-- them. `data` is a list of 12 bytes, `data2` of 4. The unused fields `reserved` and `gm_flag` are
-- left out.
use tethealla.Base.{
  ℕ, ◌+◌, ◌*◌, ◌/◌, ◌%◌, List, [], ◌∷◌, Bool, not, ◌&&◌, bit_and, ltb, ◌==◌, if◌then◌else◌, get_or,
  set, replicate,
}

-- `ITEM`
pub record Item : Type 0 where
  pub data_bytes : List ℕ
  pub itemid : ℕ
  pub data2 : List ℕ

-- `INVENTORY_ITEM`
pub record InventoryItem : Type 0 where
  pub in_use : ℕ
  pub flags : ℕ
  pub item : Item

-- `BANK_ITEM`
pub record BankItem : Type 0 where
  pub data_bytes : List ℕ
  pub itemid : ℕ
  pub data2 : List ℕ
  pub bank_count : ℕ

-- `data[i]`
abbrev pub byte : Item → ℕ → ℕ
byte i k = get_or i.data_bytes k 0

-- `data[i] = v`, for a byte
abbrev pub set_byte : Item → ℕ → ℕ → Item
set_byte i k v = record i { data_bytes = set i.data_bytes k v }

-- The item id that marks an empty slot.
abbrev pub no_item : ℕ
no_item = 0xffff_ffff

-- A structure that `memset` has cleared.
abbrev pub zero_item : Item
zero_item = record { data_bytes = replicate 12 0; itemid = 0; data2 = replicate 4 0 }

abbrev pub zero_inventory_item : InventoryItem
zero_inventory_item = record { in_use = 0; flags = 0; item = zero_item }

abbrev pub empty_bank_item : BankItem
empty_bank_item = record {
  data_bytes = replicate 12 0;
  itemid = no_item;
  data2 = replicate 4 0;
  bank_count = 0;
}

-- `*(unsigned *) dest = n`, and the read
abbrev pub le32 : ℕ → List ℕ
le32 n = n % 256 ∷ n / 256 % 256 ∷ n / 65536 % 256 ∷ n / 16777216 % 256 ∷ []

abbrev pub read_u32 : List ℕ → ℕ
read_u32 xs = get_or xs 0 0 + 256 * get_or xs 1 0 + 65536 * get_or xs 2 0 + 16777216 * get_or xs 3 0

-- The three bytes that `memcpy (&compare_item, &data[0], 3)` compares.
abbrev pub compare_item : List ℕ → ℕ
compare_item d = get_or d 0 0 + 256 * get_or d 1 0 + 65536 * get_or d 2 0

-- `stackable_table`, as `LoadArmorParam` fills it.
unfoldable pub stackable_table : ℕ → ℕ
stackable_table ch = if ltb ch 9 then (if ch == 2 then 0 else 10) else if ch == 0x10 then 99 else 0

-- `stackable`: the largest stack of an item, and 0 if it does not stack.
unfoldable pub stackable : List ℕ → ℕ
unfolding stackable_table
stackable d = if get_or d 0 0 == 3 then stackable_table (get_or d 1 0) else 0

-- A stored count of 0 counts as 1.
abbrev pub at_least_one : ℕ → ℕ
at_least_one n = if n == 0 then 1 else n

-- `flags & 0x08`
abbrev pub equipped : InventoryItem → Bool
equipped i = not (bit_and i.flags 0x08 == 0)

-- The loop that takes off what sits in an armor that goes: its body.
unfoldable pub unequip : InventoryItem → InventoryItem
unequip i =
    if byte i.item 0 == 1 && (not (byte i.item 1 == 2) && equipped i)
    then record i { item = set_byte i.item 4 0; flags = bit_and i.flags 0xffff_fff7 }
    else i

-- An equipped armor.
unfoldable pub is_worn_armor : InventoryItem → Bool
is_worn_armor i = byte i.item 0 == 1 && (byte i.item 1 == 1 && equipped i)
