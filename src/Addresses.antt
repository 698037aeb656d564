-- ===== src/Addresses.antt =====
-- Internet addresses in texts, and the masks of banned ones: convertIPString, convertMask and the
-- loop over the masks in ShipProcessPacket and BlockProcessPacket, of ship_server.c. A `char` from 128
-- on is negative there.
pub mod Scanned
pub mod Read
mod Tests
use tethealla.Base.{
  ℕ, zero, suc, ◌+◌, ◌-◌, ◌*◌, ◌%◌, ◌^◌, List, [], ◌∷◌, ◌++◌, Bool, true, false, not, ◌&&◌, ◌||◌,
  ltb, leb, ◌==◌, if◌then◌else◌, get_or, set, length,
}

-- A digit of a text
abbrev pub is_digit : ℕ → Bool
is_digit c = leb 48 c && leb c 57

-- The value of the digits at the front of a text, after those that have been read
unfoldable pub digits_value : ℕ → List ℕ → ℕ
digits_value value [] = value
digits_value value (c ∷ text) =
    let rest = digits_value (value * 10 + (c - 48)) text in if is_digit c then rest else value

-- `atoi` on a text without blanks, as a word of 32 bits
unfoldable pub atoi : List ℕ → ℕ
atoi [] = 0
atoi (c ∷ text) =
    if c == 45
    then (2 ^ 32 - digits_value 0 text % 2 ^ 32) % 2 ^ 32
    else if c == 43
    then digits_value 0 text % 2 ^ 32
    else digits_value 0 (c ∷ text) % 2 ^ 32

-- What the scan comes to: the fields as they are stored; an error that it sees; a write past the
-- five bytes of `convert_buffer`.
pub data Scan : Type 0 where
  stored : List ℕ → Scan
  bad_text : Scan
  overrun : Scan

-- `(IPData[p] > 0x20) && (IPData[p] != 46)`
abbrev pub is_plain : ℕ → Bool
is_plain c = ltb 0x20 c && (ltb c 0x80 && not (c == 46))

-- The loop of both functions, with `convert_buffer` up to `p3`, and `p2`. What is stored of a field
-- is `dotted` of its text before a dot, and `last` elsewhere.
unfoldable pub scan : (List ℕ → ℕ) → (List ℕ → ℕ) → List ℕ → List ℕ → ℕ → List ℕ → Scan
scan dotted last [] buffer p2 store = stored store
scan dotted last (c ∷ text) buffer p2 store =
    let plain = is_plain c in
    let rest =
      scan dotted last text (if plain then buffer ++ c ∷ [] else []) (if plain then p2 else suc p2)
        (if plain then store else set store p2 (dotted buffer)) in
    if leb 5 (length buffer)
    then overrun
    else if plain
    then rest
    else if c == 46
    then (if leb 3 p2 then bad_text else rest)
    else (if p2 == 3 then stored (set store p2 (last buffer)) else bad_text)

abbrev pub byte_field : List ℕ → ℕ
byte_field text = atoi text % 2 ^ 8

abbrev pub short_field : List ℕ → ℕ
short_field text = atoi text % 2 ^ 16

-- `if (convert_buffer[0] == 42) ... else ...`
abbrev pub mask_field : List ℕ → ℕ
mask_field text = if get_or text 0 0 == 42 then 0x8000 else short_field text

-- `convertIPString`. `bad_text` is the end of the program.
unfoldable pub convert_ip_string : List ℕ → List ℕ → Scan
convert_ip_string ip_data ip_store = scan byte_field byte_field ip_data [] 0 ip_store

-- What becomes of a mask that is bad: `memset (&IPStore[0], 0, 8);`
abbrev pub or_zeros : Scan → Scan
or_zeros r = elim r [
  | stored store ↦ stored store
  | bad_text ↦ stored (0 ∷ 0 ∷ 0 ∷ 0 ∷ [])
  | overrun ↦ overrun
]

-- `convertMask`
unfoldable pub convert_mask : List ℕ → List ℕ → Scan
convert_mask ip_data ip_store = or_zeros (scan mask_field short_field ip_data [] 0 ip_store)

-- `(mask[ch2] != 0x8000) && ((unsigned char) mask[ch2] != ipaddr[ch2])` at no field
unfoldable pub is_match : List ℕ → List ℕ → Bool
is_match [] ipaddr = true
is_match (m ∷ mask) [] = true
is_match (m ∷ mask) (a ∷ ipaddr) = (m == 0x8000 || m % 2 ^ 8 == a) && is_match mask ipaddr

-- `banned`, after the loop over the masks
unfoldable pub is_masked : List (List ℕ) → List ℕ → Bool
is_masked [] ipaddr = false
is_masked (mask ∷ masks) ipaddr = if is_match mask ipaddr then true else is_masked masks ipaddr
