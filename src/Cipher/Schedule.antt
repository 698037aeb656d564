-- ===== src/Cipher/Schedule.antt =====
-- `pso_crypt_init_key_bb` and `pso_crypt_table_init_bb` of ship_server.c, which make the table of
-- the cipher from a salt of 48 bytes. The table of constants of bbtable.h is an argument.
pub mod Sound
pub mod Blowfish
use tethealla.Base.{ℕ, zero, suc, ◌+◌, ◌*◌, ◌/◌, ◌%◌, ◌^◌, List, [], ◌∷◌, bit_xor, get_or, set}
use tethealla.Game.{map_first}
use tethealla.Cipher.Words.{word, mix}

-- `pso_crypt_init_key_bb`: the loop, with the rounds left
unfoldable pub pso_crypt_init_key_bb : ℕ → List ℕ → List ℕ
pso_crypt_init_key_bb (suc n) (a ∷ b ∷ c ∷ rest) =
    bit_xor a 0x19 ∷ bit_xor b 0x16 ∷ bit_xor c 0x18 ∷ pso_crypt_init_key_bb n rest
pso_crypt_init_key_bb n s = s

-- The first loop on a word of `bbtable`, as two `unsigned short`: the bytes of the low one change
-- places, and it is mixed into the high one.
unfoldable pub first_word : ℕ → ℕ
first_word w =
    let low = w % 256 * 256 + w / 256 % 256 in low + 65536 * bit_xor (w / 65536 % 65536) low

-- Four bytes of the key from `ecx` on, which goes round, the highest first. The code joins them by
-- `|`, in places that do not overlap.
abbrev pub key_word : List ℕ → ℕ → ℕ
key_word s ecx =
    get_or s ecx 0 * 16777216
    + get_or s ((ecx + 1) % 48) 0 * 65536
    + get_or s ((ecx + 2) % 48) 0 * 256
    + get_or s ((ecx + 3) % 48) 0

-- `while (ebx < 0x12)`, with the rounds left
unfoldable pub mix_key : ℕ → ℕ → ℕ → List ℕ → List ℕ → List ℕ
mix_key zero ebx ecx s tbl = tbl
mix_key (suc n) ebx ecx s tbl =
    mix_key n (ebx + 1) ((ecx + 4) % 48) s (set tbl ebx (bit_xor (word tbl ebx) (key_word s ecx)))

-- `for (x = 0; x <= 5; x++)`, with the rounds left
unfoldable pub middle_rounds : ℕ → ℕ → List ℕ → ℕ → ℕ → ℕ × ℕ
middle_rounds zero x tbl esi ecx = (esi, ecx)
middle_rounds (suc n) x tbl esi ecx =
    let esi' = bit_xor esi (bit_xor (mix tbl ecx) (word tbl (x * 2 + 2))) in
    let ecx' = bit_xor ecx (bit_xor (mix tbl esi') (word tbl (x * 2 + 3))) in
    middle_rounds n (x + 1) tbl esi' ecx'

-- The body of the loops: the next two words, `esi` and `ecx`
unfoldable pub next_words : List ℕ → ℕ → ℕ → ℕ × ℕ
next_words tbl esi ecx =
    let esi₁ = bit_xor esi (word tbl 0) in
    let ecx₁ = bit_xor ecx (bit_xor (mix tbl esi₁) (word tbl 1)) in
    let (esi₂, ecx₂) = middle_rounds 6 0 tbl esi₁ ecx₁ in
    let esi₃ = bit_xor esi₂ (bit_xor (mix tbl ecx₂) (word tbl 14)) in
    let eax = bit_xor ecx₂ (bit_xor (mix tbl esi₃) (word tbl 15)) in
    (bit_xor (word tbl 17) eax, bit_xor (bit_xor (mix tbl eax) (word tbl 16)) esi₃)

-- What the loops over the table carry
pub record Filling : Type 0 where
  pub tbl : List ℕ
  pub esi : ℕ
  pub ecx : ℕ

-- `while (edi < edx)`: the words from index `k` on, with the rounds left
unfoldable pub fill_words : ℕ → ℕ → Filling → Filling
fill_words zero k s = s
fill_words (suc n) k s =
    let (esi, ecx) = next_words s.tbl s.esi s.ecx in
    fill_words n (k + 2) (record { tbl = set (set s.tbl k esi) (k + 1) ecx; esi = esi; ecx = ecx })

-- `while (ou < 0x1000)`, with the rounds left
unfoldable pub fill_boxes : ℕ → ℕ → Filling → Filling
fill_boxes zero ou s = s
fill_boxes (suc n) ou s = fill_boxes n (ou + 0x400) (fill_words 128 (ou / 4 + 18) s)

-- `pso_crypt_table_init_bb`
unfoldable pub pso_crypt_table_init_bb : List ℕ → List ℕ → List ℕ
pso_crypt_table_init_bb bbtable salt =
    let s = pso_crypt_init_key_bb 16 salt in
    let keyed = mix_key 0x12 0 0 s (map_first first_word 0x12 bbtable) in
    let subkeys = fill_words 9 0 (record { tbl = keyed; esi = 0; ecx = 0 }) in
    (fill_boxes 4 0 subkeys).tbl
