-- ===== src/Base/Bits.antt =====
-- Facts about bits of bytes, by evaluation over their whole range.
use Prim.Native.Nat.{ℕ, zero, suc, ◌<◌, bit_xor}
use mathlib.Core.Path.{◌≡◌, refl}
use mathlib.Core.Bool.{Bool, true, false, ◌&&◌}
use mathlib.Core.List.{List, [], ◌∷◌, ◌++◌}
use native.Mathlib.Omega.{arith}
use mathlib.Core.Logic.{inl, inr}
use tethealla.Base.Tests.{Bool-cases, ==_iff, ◌==◌, ltb}

-- A test holds of every number below a bound.
unfoldable pub all_below : ℕ → (ℕ → Bool) → Bool
all_below zero test = true
all_below (suc bound) test = all_below bound test && test bound

both : (a b : Bool) → (a && b) ≡ true → (a ≡ true) × (b ≡ true)
both true b h = (refl, h)
both false b h = cc

pub all_below_sound :
    (bound : ℕ) (test : ℕ → Bool) (k : ℕ) → all_below bound test ≡ true → k < bound → test k ≡ true
unfolding all_below
all_below_sound zero test k all lt = absurd (omega arith)
all_below_sound (suc bound) test k all lt =
    let (rest, last) = both (all_below bound test) (test bound) all in
    elim (Bool-cases (k == bound)) [
      | inl e ↦ rw ((==_iff k bound).0 e) last
      | inr e ↦ all_below_sound bound test k rest (ground arith)
    ]

abbrev xor_test : ℕ → ℕ → Bool
xor_test a b =
    let c = bit_xor a b in
    bit_xor c b == a && (bit_xor b c == a && (bit_xor c a == b && (ltb c 256 && bit_xor a a == 0)))

xor_row : ℕ → Bool
unfolding all_below
xor_row a = all_below 256 (xor_test a)

xor_table : all_below 256 xor_row ≡ true
unfolding xor_row
xor_table = refl

xor_tested : (a b : ℕ) → a < 256 → b < 256 → xor_test a b ≡ true
unfolding xor_row
xor_tested a b ha hb =
    all_below_sound 256 (xor_test a) b (all_below_sound 256 xor_row a xor_table ha) hb

-- `^` on bytes: it stays in range, and is undone by each of its operands.
module _ (a b : ℕ) (ha : a < 256) (hb : b < 256) where
  pub xor_twice : bit_xor (bit_xor a b) b ≡ a
  xor_twice = ground (arith, xor_tested a b ha hb)

  pub xor_twice_left : bit_xor b (bit_xor a b) ≡ a
  xor_twice_left = ground (arith, xor_tested a b ha hb)

  pub xor_twice_first : bit_xor (bit_xor a b) a ≡ b
  xor_twice_first = ground (arith, xor_tested a b ha hb)

  pub bit_xor-lt : bit_xor a b < 256
  bit_xor-lt = ground (arith, xor_tested a b ha hb)

pub bit_xor_self : (a : ℕ) → a < 256 → bit_xor a a ≡ 0
bit_xor_self a h = ground (arith, xor_tested a a h h)

-- Every element is a byte.
abbrev pub Bytes : List ℕ → Type 0
Bytes [] = Unit
Bytes (x ∷ xs) = (x < 256) × Bytes xs

pub append-Bytes : (xs ys : List ℕ) → Bytes xs → Bytes ys → Bytes (xs ++ ys)
append-Bytes [] ys h k = k
append-Bytes (x ∷ xs) ys h k = (h.0, append-Bytes xs ys h.1 k)

pub Bytes-append_right : (xs ys : List ℕ) → Bytes (xs ++ ys) → Bytes ys
Bytes-append_right [] ys h = h
Bytes-append_right (x ∷ xs) ys h = Bytes-append_right xs ys h.1
