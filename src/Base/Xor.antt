-- ===== src/Base/Xor.antt =====
-- `^` of C on words: its algebra at every width, from the recursion on binary digits.
use Prim.Native.Nat.{ℕ, zero, suc, ◌+◌, ◌*◌, ◌/◌, ◌%◌, ◌^◌, ◌≤◌, ◌<◌, bit_xor, differ}
use mathlib.Core.Path.{◌≡◌, refl, sym, ap, ◌∙◌}
use native.Mathlib.Nat.{pow-suc}
use native.Mathlib.Omega.{arith}
use tethealla.Base.Digits.{bit_xor-lowest, zero-bit_xor}

differ_bits : (x y : ℕ) → x < 2 → y < 2 → differ x y ≡ (x + y) % 2
differ_bits zero zero p q = refl
differ_bits zero (suc zero) p q = refl
differ_bits (suc zero) zero p q = refl
differ_bits (suc zero) (suc zero) p q = refl
differ_bits (suc (suc x)) y p q = absurd (omega arith)
differ_bits zero (suc (suc y)) p q = absurd (omega arith)
differ_bits (suc zero) (suc (suc y)) p q = absurd (omega arith)

xor_step : (a b : ℕ) → bit_xor a b ≡ bit_xor (a / 2) (b / 2) * 2 + (a + b) % 2
xor_step a b =
    omega (arith, bit_xor-lowest a b, differ_bits (a % 2) (b % 2) (omega arith) (omega arith))

half : (a b : ℕ) → bit_xor a b / 2 ≡ bit_xor (a / 2) (b / 2)
half a b = omega (arith, xor_step a b)

parity : (a b : ℕ) → bit_xor a b % 2 ≡ (a + b) % 2
parity a b = omega (arith, xor_step a b)

-- Each law by induction on a bound of the first number.
comm_fuel : (n a b : ℕ) → a ≤ n → b ≤ n → bit_xor a b ≡ bit_xor b a
comm_fuel zero a b p q =
    let za : a ≡ 0 = omega arith in let zb : b ≡ 0 = omega arith in rw (za, zb) refl
comm_fuel (suc n) a b p q =
    omega
      (arith, xor_step a b, xor_step b a, comm_fuel n (a / 2) (b / 2) (omega arith) (omega arith))

pub xor_comm : (a b : ℕ) → bit_xor a b ≡ bit_xor b a
xor_comm a b = comm_fuel (a + b) a b (omega arith) (omega arith)

assoc_fuel : (n a b c : ℕ) → a ≤ n → bit_xor (bit_xor a b) c ≡ bit_xor a (bit_xor b c)
assoc_fuel zero a b c p =
    let za : a ≡ 0 = omega arith in rw (za, zero-bit_xor b, zero-bit_xor (bit_xor b c)) refl
assoc_fuel (suc n) zero b c p = rw (zero-bit_xor b, zero-bit_xor (bit_xor b c)) refl
assoc_fuel (suc n) (suc a) b c p =
    let left = xor_step (bit_xor (suc a) b) c in
    let right = xor_step (suc a) (bit_xor b c) in
    let rest = assoc_fuel n (suc a / 2) (b / 2) (c / 2) (omega arith) in
    left
    ∙ (ap (λ h. bit_xor h (c / 2) * 2 + (bit_xor (suc a) b + c) % 2) (half (suc a) b)
        ∙ (omega (arith, rest, parity (suc a) b, parity b c)
            ∙ (ap (λ h. bit_xor (suc a / 2) h * 2 + (suc a + bit_xor b c) % 2) (sym (half b c))
                ∙ sym right)))

pub xor_assoc : (a b c : ℕ) → bit_xor (bit_xor a b) c ≡ bit_xor a (bit_xor b c)
xor_assoc a b c = assoc_fuel a a b c (omega arith)

self_fuel : (n a : ℕ) → a ≤ n → bit_xor a a ≡ 0
self_fuel zero a p = let za : a ≡ 0 = omega arith in rw za refl
self_fuel (suc n) zero p = refl
self_fuel (suc n) (suc a) p =
    omega (arith, xor_step (suc a) (suc a), self_fuel n (suc a / 2) (omega arith))

pub xor_self : (a : ℕ) → bit_xor a a ≡ 0
xor_self a = self_fuel a a (omega arith)

pub xor_zero : (a : ℕ) → bit_xor a 0 ≡ a
xor_zero a = xor_comm a 0 ∙ zero-bit_xor a

-- The exclusive or of two words of `w` bits is one.
pub xor-lt-pow : (w a b : ℕ) → a < 2 ^ w → b < 2 ^ w → bit_xor a b < 2 ^ w
xor-lt-pow zero a b p q =
    let za : a ≡ 0 = omega arith in let zb : b ≡ 0 = omega arith in rw (za, zb) (omega arith)
xor-lt-pow (suc w) a b p q = omega (
  arith,
  pow-suc 2 w,
  xor_step a b,
  xor-lt-pow w (a / 2) (b / 2) (omega (arith, pow-suc 2 w)) (omega (arith, pow-suc 2 w)),
)

-- A word that has been mixed in twice is gone.
pub xor_cancel_right : (a b : ℕ) → bit_xor (bit_xor a b) b ≡ a
xor_cancel_right a b = xor_assoc a b b ∙ (ap (bit_xor a) (xor_self b) ∙ xor_zero a)

pub xor_cancel_left : (a b : ℕ) → bit_xor a (bit_xor b a) ≡ b
xor_cancel_left a b =
    ap (bit_xor a) (xor_comm b a)
    ∙ (sym (xor_assoc a a b) ∙ (ap (λ t. bit_xor t b) (xor_self a) ∙ zero-bit_xor b))

pub xor_cancel_first : (a b : ℕ) → bit_xor (bit_xor a b) a ≡ b
xor_cancel_first a b =
    xor_comm (bit_xor a b) a ∙ (ap (bit_xor a) (xor_comm a b) ∙ xor_cancel_left a b)
