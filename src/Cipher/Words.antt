-- ===== src/Cipher/Words.antt =====
-- `pso_crypt_encrypt_bb` and `pso_crypt_decrypt_bb` of ship_server.c.
use tethealla.Base.{ℕ, ◌+◌, ◌/◌, ◌%◌, ◌^◌, List, [], ◌∷◌, ◌++◌, Option, none, some, bit_xor, get_or}
use tethealla.Item.{le32, read_u32}

-- `pcry->tbl[k]`
abbrev pub word : List ℕ → ℕ → ℕ
word tbl k = get_or tbl k 0

-- `((tbl[(x >> 0x18) + 0x12] + tbl[((x >> 0x10) & 0xff) + 0x112])
--   ^ tbl[((x >> 0x8) & 0xff) + 0x212]) + tbl[(x & 0xff) + 0x312]`
unfoldable pub mix : List ℕ → ℕ → ℕ
mix tbl x =
    let sum = (word tbl (x / 2 ^ 24 + 0x12) + word tbl (x / 2 ^ 16 % 256 + 0x112)) % 2 ^ 32 in
    (bit_xor sum (word tbl (x / 2 ^ 8 % 256 + 0x212)) + word tbl (x % 256 + 0x312)) % 2 ^ 32

-- The body of the loop of `pso_crypt_encrypt_bb`, on the two words of a block
unfoldable pub encrypt_block : List ℕ → ℕ → ℕ → ℕ × ℕ
encrypt_block tbl x y =
    let ebx₁ = bit_xor x (word tbl 0) in
    let ebp₁ = bit_xor (bit_xor (mix tbl ebx₁) (word tbl 1)) y in
    let ebx₂ = bit_xor ebx₁ (bit_xor (mix tbl ebp₁) (word tbl 2)) in
    let ebp₂ = bit_xor (bit_xor ebp₁ (mix tbl ebx₂)) (word tbl 3) in
    (bit_xor ebp₂ (word tbl 5), bit_xor ebx₂ (bit_xor (mix tbl ebp₂) (word tbl 4)))

-- The body of the loop of `pso_crypt_decrypt_bb`
unfoldable pub decrypt_block : List ℕ → ℕ → ℕ → ℕ × ℕ
decrypt_block tbl x y =
    let ebx₁ = bit_xor x (word tbl 5) in
    let ebp₁ = bit_xor (bit_xor (mix tbl ebx₁) (word tbl 4)) y in
    let ebx₂ = bit_xor ebx₁ (bit_xor (mix tbl ebp₁) (word tbl 3)) in
    let ebp₂ = bit_xor (bit_xor ebp₁ (mix tbl ebx₂)) (word tbl 2) in
    (bit_xor ebp₂ (word tbl 0), bit_xor ebx₂ (bit_xor (mix tbl ebp₂) (word tbl 1)))

-- The two words as they are written back
abbrev pub block_bytes : ℕ × ℕ → List ℕ
block_bytes (x, y) = le32 x ++ le32 y

-- `while (edx < length)`: the blocks of eight bytes. `none` is an access past the data, where the
-- length is no multiple of eight.
unfoldable pub each_block : (ℕ → ℕ → ℕ × ℕ) → List ℕ → Option (List ℕ)
each_block f (a ∷ b ∷ c ∷ d ∷ e ∷ g ∷ h ∷ i ∷ rest) =
    let x = read_u32 (a ∷ b ∷ c ∷ d ∷ []) in
    let y = read_u32 (e ∷ g ∷ h ∷ i ∷ []) in
    elim (each_block f rest) [ none ↦ none | some later ↦ some (block_bytes (f x y) ++ later) ]
each_block f [] = some []
each_block f _ = none

-- `pso_crypt_encrypt_bb`
unfoldable pub pso_crypt_encrypt_bb : List ℕ → List ℕ → Option (List ℕ)
pso_crypt_encrypt_bb tbl bytes = each_block (encrypt_block tbl) bytes

-- `pso_crypt_decrypt_bb`
unfoldable pub pso_crypt_decrypt_bb : List ℕ → List ℕ → Option (List ℕ)
pso_crypt_decrypt_bb tbl bytes = each_block (decrypt_block tbl) bytes
