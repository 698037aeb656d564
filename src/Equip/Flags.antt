-- ===== src/Equip/Flags.antt =====
-- Facts on the bits that say what is worn and who may wear it.
use tethealla.Base.{ℕ, ◌*◌, ◌/◌, ◌%◌, ◌≡◌, true, false, bit_and, bit_or, arith}
use tethealla.Base.Digits.{bit_and-lowest, bit_or-lowest, bit_and_none}
use tethealla.Item.{InventoryItem, equipped}
use tethealla.Equip.{taken_off, put_on}

-- `flags & 0x08` reads the bit of the eights.
bit_and_eight : (a : ℕ) → bit_and a 8 ≡ a / 8 % 2 * 8
bit_and_eight a = omega (
  arith,
  bit_and-lowest a 8,
  bit_and-lowest (a / 2) 4,
  bit_and-lowest (a / 2 / 2) 2,
  bit_and-lowest (a / 2 / 2 / 2) 1,
  bit_and_none (a / 2 / 2 / 2 / 2),
)

eights_off : (a : ℕ) → bit_and a 0xffff_fff7 / 8 % 2 ≡ 0
eights_off a = omega (
  arith,
  bit_and-lowest a 0xffff_fff7,
  bit_and-lowest (a / 2) 0x7fff_fffb,
  bit_and-lowest (a / 2 / 2) 0x3fff_fffd,
  bit_and-lowest (a / 2 / 2 / 2) 0x1fff_fffe,
)

eights_on : (a : ℕ) → bit_or a 8 / 8 % 2 ≡ 1
eights_on a = omega (
  arith,
  bit_or-lowest a 8,
  bit_or-lowest (a / 2) 4,
  bit_or-lowest (a / 2 / 2) 2,
  bit_or-lowest (a / 2 / 2 / 2) 1,
)

pub equipped-taken_off : (i : InventoryItem) → equipped (taken_off i) ≡ false
equipped-taken_off i =
    ground (arith, bit_and_eight (bit_and i.flags 0xffff_fff7), eights_off i.flags)

pub equipped-put_on : (i : InventoryItem) → equipped (put_on i) ≡ true
equipped-put_on i = ground (arith, bit_and_eight (bit_or i.flags 8), eights_on i.flags)
