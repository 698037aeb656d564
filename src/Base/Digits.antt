-- ===== src/Base/Digits.antt =====
-- The lowest digits of the bit operations. They stand for a recursion on binary digits that counts
-- its rounds; more rounds than the first number has digits change nothing.
use Prim.Native.Nat.{
  ℕ, zero, suc, ◌+◌, ◌*◌, ◌/◌, ◌%◌, ◌≤◌, min, max, digits, bitwise, differ, bit_and, bit_or,
  bit_xor, bit_and-bitwise, bit_or-bitwise, bit_xor-bitwise,
}
use mathlib.Core.Path.{◌≡◌, refl, ap, sym, ◌∙◌}
use mathlib.Core.Logic.{inl, inr}
use native.Mathlib.Omega.{arith}
use tethealla.Base.Tests.{Bool-cases, ==_iff, ◌==◌}

module _ (z : ℕ → ℕ) (f : ℕ → ℕ → ℕ) where
  one_round_more :
      (rounds a b : ℕ) → a ≤ rounds → digits z f (suc rounds) a b ≡ digits z f rounds a b
  one_round_more zero (suc a) b few = absurd (omega arith)
  one_round_more zero zero b few = refl
  one_round_more (suc rounds) zero b few = refl
  one_round_more (suc rounds) (suc a) b few =
      ap (λ upper. upper * 2 + f (suc a % 2) (b % 2))
        (one_round_more rounds (suc a / 2) (b / 2) (omega arith))

  rounds_enough : (rounds a b : ℕ) → a ≤ rounds → digits z f rounds a b ≡ bitwise z f a b
  rounds_enough zero a b few =
      let none_left : 0 ≡ a = omega arith in ap (λ k. digits z f k a b) none_left
  rounds_enough (suc rounds) a b few = elim (Bool-cases (suc rounds == a)) [
    | inl exact ↦ ap (λ k. digits z f k a b) ((==_iff (suc rounds) a).0 exact)
    | inr spare ↦ one_round_more rounds a b (ground arith) ∙ rounds_enough rounds a b (ground arith)
  ]

  -- The lowest digit, and the operation on the others
  lowest_digit :
      (a b : ℕ)
      → bitwise z f (suc a) b ≡ bitwise z f (suc a / 2) (b / 2) * 2 + f (suc a % 2) (b % 2)
  lowest_digit a b =
      ap (λ upper. upper * 2 + f (suc a % 2) (b % 2))
        (rounds_enough a (suc a / 2) (b / 2) (omega arith))

-- The same of an operation `op` that is known to be such a recursion
module _ (z : ℕ → ℕ) (f op : ℕ → ℕ → ℕ) (op-bitwise : (a b : ℕ) → op a b ≡ bitwise z f a b) where
  op-suc : (a b : ℕ) → op (suc a) b ≡ op (suc a / 2) (b / 2) * 2 + f (suc a % 2) (b % 2)
  op-suc a b =
      op-bitwise (suc a) b
      ∙ (lowest_digit z f a b
          ∙ ap (λ upper. upper * 2 + f (suc a % 2) (b % 2)) (sym (op-bitwise (suc a / 2) (b / 2))))

zero-bit_and : (b : ℕ) → bit_and 0 b ≡ 0
zero-bit_and b = bit_and-bitwise 0 b

zero-bit_or : (b : ℕ) → bit_or 0 b ≡ b
zero-bit_or b = bit_or-bitwise 0 b

pub zero-bit_xor : (b : ℕ) → bit_xor 0 b ≡ b
zero-bit_xor b = bit_xor-bitwise 0 b

pub bit_and-lowest : (a b : ℕ) → bit_and a b ≡ bit_and (a / 2) (b / 2) * 2 + min (a % 2) (b % 2)
bit_and-lowest (suc a) b = op-suc (λ b. zero) min bit_and (λ x y. bit_and-bitwise x y) a b
bit_and-lowest zero b = omega (arith, zero-bit_and b, zero-bit_and (b / 2))

pub bit_or-lowest : (a b : ℕ) → bit_or a b ≡ bit_or (a / 2) (b / 2) * 2 + max (a % 2) (b % 2)
bit_or-lowest (suc a) b = op-suc (λ b. b) max bit_or (λ x y. bit_or-bitwise x y) a b
bit_or-lowest zero b = omega (arith, zero-bit_or b, zero-bit_or (b / 2))

pub bit_xor-lowest : (a b : ℕ) → bit_xor a b ≡ bit_xor (a / 2) (b / 2) * 2 + differ (a % 2) (b % 2)
bit_xor-lowest (suc a) b = op-suc (λ b. b) differ bit_xor (λ x y. bit_xor-bitwise x y) a b
bit_xor-lowest zero b = omega (arith, zero-bit_xor b, zero-bit_xor (b / 2))

-- No digit is common with zero.
none_common : (rounds a : ℕ) → digits (λ b. zero) min rounds a 0 ≡ 0
none_common zero a = refl
none_common (suc rounds) zero = refl
none_common (suc rounds) (suc a) = omega (arith, none_common rounds (suc a / 2))

pub bit_and_none : (a : ℕ) → bit_and a 0 ≡ 0
bit_and_none a = bit_and-bitwise a 0 ∙ none_common a a
