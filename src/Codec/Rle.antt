-- ===== src/Codec/Rle.antt =====
-- `RleEncode` and `RleDecode` of ship_server.c. A pointer that walks a buffer is the list of
-- the bytes that are left, and `dest` is the list of the bytes written.
pub mod RoundTrip
use mathlib.Core.Option
use tethealla.Base.{
  ℕ, zero, suc, ◌+◌, ◌-◌, ◌*◌, ◌/◌, ◌%◌, List, [], ◌∷◌, ◌++◌, Option, none, some, true, false, ltb,
  ◌==◌, if◌then◌else◌, length, replicate,
}

-- `*(unsigned short*) dest = count`
abbrev pub le16 : ℕ → List ℕ
le16 n = n % 256 ∷ n / 256 % 256 ∷ []

-- `*src`; past the last byte the value read is never used.
abbrev pub head_or : List ℕ → ℕ → ℕ
head_or [] d = d
head_or (x ∷ xs) d = x

-- The longest run that is counted.
abbrev pub max_run : ℕ
max_run = 0xfff0

-- Where the inner loop of the encoder stops.
pub record RunEnd : Type 0 where
  pub written : List ℕ
  pub rest : List ℕ
  pub prev_char : ℕ

-- The inner `while` of `RleEncode`, with the count of equal bytes so far.
pub encode_run : ℕ → ℕ → List ℕ → RunEnd
encode_run prev_char count [] = record { written = []; rest = []; prev_char = prev_char }
encode_run prev_char count (x ∷ []) =
    if ltb count max_run
    then (if x == prev_char
        then record { written = le16 (count + 1); rest = []; prev_char = prev_char }
        else record { written = le16 count; rest = x ∷ []; prev_char = 0xff - x })
    else record { written = []; rest = x ∷ []; prev_char = prev_char }
encode_run prev_char count (x ∷ y ∷ ys) =
    if ltb count max_run
    then (if x == prev_char
        then encode_run prev_char (count + 1) (y ∷ ys)
        else record { written = le16 count; rest = x ∷ y ∷ ys; prev_char = 0xff - x })
    else record { written = []; rest = x ∷ y ∷ ys; prev_char = prev_char }

-- The outer `while` of `RleEncode`; each round takes a byte, and `none` means that the fuel ran out.
pub encode_loop : ℕ → ℕ → List ℕ → Option (List ℕ)
unfolding encode_run
encode_loop fuel prev_char [] = some []
encode_loop zero prev_char (c ∷ cs) = none
encode_loop (suc fuel) prev_char (c ∷ []) =
    if c == prev_char
    then some (c ∷ 0 ∷ 0 ∷ [])
    else Option.map (λ o. c ∷ o) (encode_loop fuel c [])
encode_loop (suc fuel) prev_char (c ∷ d ∷ ds) = elim (c == prev_char) [
  | true ↦
      let r = encode_run prev_char 0 (d ∷ ds) in
      Option.map (λ o. c ∷ (r.written ++ o)) (encode_loop fuel r.prev_char r.rest)
  | false ↦ Option.map (λ o. c ∷ o) (encode_loop fuel c (d ∷ ds))
]

unfoldable pub rle_encode : List ℕ → Option (List ℕ)
unfolding encode_loop
rle_encode src = encode_loop (length src) (0xff - head_or src 0) src

-- `*(unsigned short*) src`, then `src += 2`; `none` is a read past the buffer.
abbrev pub read_u16 : List ℕ → Option (ℕ × List ℕ)
read_u16 (lo ∷ hi ∷ rest) = some (lo + 256 * hi, rest)
read_u16 (lo ∷ []) = none
read_u16 [] = none

-- The `while` of `RleDecode`.
pub decode_loop : ℕ → ℕ → List ℕ → Option (List ℕ)
decode_loop fuel prev_char [] = some []
decode_loop zero prev_char (c ∷ cs) = none
decode_loop (suc fuel) prev_char (c ∷ cs) = elim (c == prev_char) [
  | true ↦ elim (read_u16 cs) [
    | none ↦ none
    | some (count, rest) ↦
        Option.map (λ o. c ∷ (replicate count c ++ o))
          (decode_loop fuel (0xff - head_or rest 0) rest)
  ]
  | false ↦ Option.map (λ o. c ∷ o) (decode_loop fuel c cs)
]

unfoldable pub rle_decode : List ℕ → Option (List ℕ)
unfolding decode_loop
rle_decode src = decode_loop (length src) (0xff - head_or src 0) src
