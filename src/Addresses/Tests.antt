-- ===== src/Addresses/Tests.antt =====
-- The theorems on addresses and masks at small texts, and runs of the functions.
use tethealla.Base.{ℕ, ◌≡◌, refl, [], ◌∷◌, List, true, false, ◌&&◌, arith}
use tethealla.Addresses.{
  stored, bad_text, overrun, scan, atoi, digits_value, convert_ip_string, convert_mask, is_masked,
}
use tethealla.Addresses.Scanned.{dotted_text}
use tethealla.Addresses.Read.{
  print_byte, print_field, only, any, covers, covers_last, convert_ip_string-print,
  convert_mask-match,
}

convert_ip_string-print_example :
    convert_ip_string
      (dotted_text (print_byte 192) (print_byte 168) (print_byte 0) (print_byte 17))
      (9 ∷ 9 ∷ 9 ∷ 9 ∷ [])
    ≡ stored (192 ∷ 168 ∷ 0 ∷ 17 ∷ [])
convert_ip_string-print_example =
    convert_ip_string-print 192 168 0 17 9 9 9 9 (omega arith) (omega arith) (omega arith)
      (omega arith)

-- The mask 10.*.3.*, and an address that ends in 5
convert_mask-match_example :
    (mask : List ℕ) × (convert_mask
        (dotted_text
          (print_field (only 10))
          (print_field any)
          (print_field (only 3))
          (print_field any))
        (0 ∷ 0 ∷ 0 ∷ 0 ∷ [])
      ≡ stored mask)
    × (is_masked (mask ∷ []) (10 ∷ 77 ∷ 3 ∷ 5 ∷ [])
        ≡ (covers (only 10) 10 && (covers any 77 && (covers (only 3) 3 && covers_last any 5))))
convert_mask-match_example =
    convert_mask-match (only 10) any (only 3) any 10 77 3 5 0 0 0 0 (omega arith) tt (omega arith)
      tt

-- The star in the last field bans nobody but at 0.
last_star : (covers_last any 5 ≡ false) × (covers_last any 0 ≡ true)
last_star = (refl, refl)

-- A text that ends early, and a field of six characters
ends_early : convert_ip_string (49 ∷ 46 ∷ 50 ∷ 0 ∷ []) (0 ∷ 0 ∷ 0 ∷ 0 ∷ []) ≡ bad_text
unfolding convert_ip_string scan atoi digits_value
ends_early = refl

long_field : convert_mask (49 ∷ 49 ∷ 49 ∷ 49 ∷ 49 ∷ 49 ∷ 0 ∷ []) (0 ∷ 0 ∷ 0 ∷ 0 ∷ []) ≡ overrun
unfolding convert_mask scan atoi digits_value
long_field = refl
