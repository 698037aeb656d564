-- ===== src/Base/Int.antt =====
-- The signed numbers of C (`short`, `char`, `int`), over the native numbers.
use Prim.Native.Nat.{ℕ, suc, ◌+◌, ◌-◌, ◌*◌, ◌/◌, ◌%◌, ◌<◌}
use mathlib.Core.Bool.{Bool}
use tethealla.Base.Tests.{ltb, leb, ◌==◌, if◌then◌else◌}

-- `negsuc n` is -(n + 1).
pub data ℤ : Type 0 where
  pos : ℕ → ℤ
  negsuc : ℕ → ℤ

abbrev pub pos_part : ℤ → ℕ
pos_part (pos n) = n
pos_part (negsuc n) = 0

abbrev pub neg_part : ℤ → ℕ
neg_part (pos n) = 0
neg_part (negsuc n) = suc n

-- a - b, as an integer.
abbrev pub sub_ℕ : ℕ → ℕ → ℤ
sub_ℕ a b = if leb b a then pos (a - b) else negsuc (b - a - 1)

infixl 65 ◌+ℤ◌
unfoldable pub ◌+ℤ◌ : ℤ → ℤ → ℤ
a +ℤ b = sub_ℕ (pos_part a + pos_part b) (neg_part a + neg_part b)

infix 50 ◌<ℤ◌
abbrev pub ◌<ℤ◌ : ℤ → ℤ → Type 0
a <ℤ b = pos_part a + neg_part b < pos_part b + neg_part a

-- `a < b` and `a == b`
abbrev pub ltz : ℤ → ℤ → Bool
ltz a b = ltb (pos_part a + neg_part b) (pos_part b + neg_part a)

abbrev pub eqz : ℤ → ℤ → Bool
eqz a b = pos_part a + neg_part b == pos_part b + neg_part a

-- `/` and `%` of C, which round towards zero
abbrev pub div_trunc : ℤ → ℕ → ℤ
div_trunc (pos n) k = pos (n / k)
div_trunc (negsuc n) k = sub_ℕ 0 (suc n / k)

abbrev pub rem_trunc : ℤ → ℕ → ℤ
rem_trunc (pos n) k = pos (n % k)
rem_trunc (negsuc n) k = sub_ℕ 0 (suc n % k)

-- The low bits of a number, as an unsigned and as a signed number.
abbrev pub to_unsigned : ℕ → ℤ → ℕ
to_unsigned m (pos n) = n % m
to_unsigned m (negsuc n) = m - 1 - n % m

abbrev pub to_signed : ℕ → ℤ → ℤ
to_signed m a = let w = to_unsigned m a in if ltb w (m / 2) then pos w else negsuc (m - w - 1)

-- The casts `(short)` and `(char)`.
abbrev pub to_short : ℤ → ℤ
to_short = to_signed 65536

abbrev pub to_char : ℤ → ℤ
to_char = to_signed 256

-- `*` by a number
abbrev pub mul_int : ℤ → ℕ → ℤ
mul_int (pos n) k = pos (n * k)
mul_int (negsuc n) k = sub_ℕ 0 (suc n * k)
