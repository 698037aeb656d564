-- ===== src/Addresses/Read.antt =====
-- The addresses and the masks that are read from their texts, by convertIPString and convertMask of
-- ship_server.c, and whom a mask bans.
use tethealla.Base.{
  ℕ, ◌+◌, ◌/◌, ◌%◌, ◌^◌, ◌<◌, ◌≤◌, ◌≡◌, refl, sym, ap, ◌∙◌, List, [], ◌∷◌, Bool, true, false, not,
  ◌&&◌, ◌||◌, leb→le, ltb, leb, ◌==◌, ==_iff, if◌then◌else◌, get_or, length, arith,
}
use tethealla.Base.Bits.{all_below, all_below_sound}
use tethealla.Addresses.{
  digits_value, atoi, stored, byte_field, short_field, mask_field, convert_ip_string, convert_mask,
  or_zeros, is_match, is_masked,
}
use tethealla.Addresses.Scanned.{all_plain, both, dotted_text, IsField, scan-dotted_text}

-- A byte in decimal digits
abbrev pub print_byte : ℕ → List ℕ
print_byte n =
    if ltb n 10
    then (48 + n) ∷ []
    else if ltb n 100
    then (48 + n / 10) ∷ (48 + n % 10) ∷ []
    else (48 + n / 100) ∷ (48 + n / 10 % 10) ∷ (48 + n % 10) ∷ []

refuted : (b : Bool) → not b ≡ true → b ≡ false
refuted true h = sym h
refuted false h = refl

byte_test : ℕ → Bool
unfolding atoi digits_value
byte_test n =
    all_plain (print_byte n)
    && (leb (length (print_byte n)) 4
        && (atoi (print_byte n) == n && not (get_or (print_byte n) 0 0 == 42)))

byte_table : all_below 256 byte_test ≡ true
unfolding byte_test all_below atoi digits_value
byte_table = refl

-- A byte in digits is short and plain, and `atoi` reads it back.
record IsPrinted (n : ℕ) : Type 0 where
  plain : all_plain (print_byte n) ≡ true
  short : length (print_byte n) ≤ 4
  value : atoi (print_byte n) ≡ n
  no_star : (get_or (print_byte n) 0 0 == 42) ≡ false

print_byte-IsPrinted : (n : ℕ) → n < 256 → IsPrinted n
unfolding byte_test
print_byte-IsPrinted n p =
    let h = all_below_sound 256 byte_test n byte_table p in
    let (plain, rest) =
      both (all_plain (print_byte n))
        (leb (length (print_byte n)) 4
          && (atoi (print_byte n) == n && not (get_or (print_byte n) 0 0 == 42)))
        h in
    let (short, rest') =
      both (leb (length (print_byte n)) 4)
        (atoi (print_byte n) == n && not (get_or (print_byte n) 0 0 == 42)) rest in
    let (value, no_star) =
      both (atoi (print_byte n) == n) (not (get_or (print_byte n) 0 0 == 42)) rest' in
    record {
      plain = plain;
      short = leb→le (length (print_byte n)) 4 short;
      value = (==_iff (atoi (print_byte n)) n).0 value;
      no_star = refuted (get_or (print_byte n) 0 0 == 42) no_star;
    }

print_byte-IsField : (n : ℕ) → n < 256 → IsField (print_byte n)
print_byte-IsField n p =
    let i = print_byte-IsPrinted n p in record { plain = i.plain; short = i.short }

byte_field-print_byte : (n : ℕ) → n < 256 → byte_field (print_byte n) ≡ n
byte_field-print_byte n p = omega (arith, (print_byte-IsPrinted n p).value)

-- The address of four bytes that is written in decimal digits with dots between them is read as
-- these four bytes, whatever is in the store before.
pub convert_ip_string-print :
    (a b c d w x y z : ℕ)
    → a < 256
    → b < 256
    → c < 256
    → d < 256
    → convert_ip_string
        (dotted_text (print_byte a) (print_byte b) (print_byte c) (print_byte d))
        (w ∷ x ∷ y ∷ z ∷ [])
      ≡ stored (a ∷ b ∷ c ∷ d ∷ [])
unfolding convert_ip_string
convert_ip_string-print a b c d w x y z p q r s =
    scan-dotted_text byte_field byte_field (print_byte a) (print_byte b) (print_byte c)
      (print_byte d) w x y z (print_byte-IsField a p) (print_byte-IsField b q)
      (print_byte-IsField c r) (print_byte-IsField d s)
    ∙ rw
        (
          byte_field-print_byte a p,
          byte_field-print_byte b q,
          byte_field-print_byte c r,
          byte_field-print_byte d s,
        )
        refl

-- A field of a mask: one byte, or any
pub data MaskField : Type 0 where
  only : ℕ → MaskField
  any : MaskField

abbrev pub print_field : MaskField → List ℕ
print_field (only n) = print_byte n
print_field any = 42 ∷ []

abbrev pub covers : MaskField → ℕ → Bool
covers (only n) a = n == a
covers any a = true

-- What the last field covers
abbrev pub covers_last : MaskField → ℕ → Bool
covers_last (only n) a = n == a
covers_last any a = 0 == a

-- The number of a field is a byte.
abbrev pub IsByte : MaskField → Type 0
IsByte (only n) = n < 256
IsByte any = Unit {0}

print_field-IsField : (f : MaskField) → IsByte f → IsField (print_field f)
print_field-IsField (only n) p = print_byte-IsField n p
print_field-IsField any p = record { plain = refl; short = omega arith }

abbrev matches : ℕ → ℕ → Bool
matches m a = m == 0x8000 || m % 2 ^ 8 == a

matches_only : (m n a : ℕ) → n < 256 → m ≡ n → matches m a ≡ (n == a)
matches_only m n a p e = ground arith

short_value : (n : ℕ) → n < 256 → short_field (print_byte n) ≡ n
short_value n p = omega (arith, (print_byte-IsPrinted n p).value)

mask_value : (n : ℕ) → n < 256 → mask_field (print_byte n) ≡ n
mask_value n p = rw (print_byte-IsPrinted n p).no_star (short_value n p)

mask_field-covers :
    (f : MaskField) (a : ℕ) → IsByte f → matches (mask_field (print_field f)) a ≡ covers f a
mask_field-covers (only n) a p = matches_only (mask_field (print_byte n)) n a p (mask_value n p)
mask_field-covers any a p = refl

short_field-covers :
    (f : MaskField) (a : ℕ) → IsByte f → matches (short_field (print_field f)) a ≡ covers_last f a
unfolding atoi digits_value
short_field-covers (only n) a p = matches_only (short_field (print_byte n)) n a p (short_value n p)
short_field-covers any a p = ground arith

all_four :
    (p q r s : Bool)
    → (if p && (q && (r && (s && true))) then true else false) ≡ (p && (q && (r && s)))
all_four false q r s = refl
all_four true false r s = refl
all_four true true false s = refl
all_four true true true false = refl
all_four true true true true = refl

-- A mask of four fields, each a byte in digits or a star, is stored, and bans exactly the addresses
-- of which each byte is covered: a star covers every byte in the first three fields, but only 0 in
-- the last.
pub convert_mask-match :
    (f₁ f₂ f₃ f₄ : MaskField) (a b c d w x y z : ℕ)
    → IsByte f₁
    → IsByte f₂
    → IsByte f₃
    → IsByte f₄
    → (mask : List ℕ) × (convert_mask
          (dotted_text (print_field f₁) (print_field f₂) (print_field f₃) (print_field f₄))
          (w ∷ x ∷ y ∷ z ∷ [])
        ≡ stored mask)
      × (is_masked (mask ∷ []) (a ∷ b ∷ c ∷ d ∷ [])
          ≡ (covers f₁ a && (covers f₂ b && (covers f₃ c && covers_last f₄ d))))
unfolding convert_mask is_match is_masked
convert_mask-match f₁ f₂ f₃ f₄ a b c d w x y z p q r s = (
  mask_field (print_field f₁)
      ∷ mask_field (print_field f₂)
      ∷ mask_field (print_field f₃)
      ∷ short_field (print_field f₄)
      ∷ [],
  ap or_zeros (
      scan-dotted_text mask_field short_field (print_field f₁) (print_field f₂) (print_field f₃)
        (print_field f₄) w x y z (print_field-IsField f₁ p) (print_field-IsField f₂ q)
        (print_field-IsField f₃ r) (print_field-IsField f₄ s)),
  rw
      (
        mask_field-covers f₁ a p,
        mask_field-covers f₂ b q,
        mask_field-covers f₃ c r,
        short_field-covers f₄ d s,
      )
      (all_four (covers f₁ a) (covers f₂ b) (covers f₃ c) (covers_last f₄ d)),
)
