-- ===== src/Cipher/Schedule/Blowfish.antt =====
-- `pso_crypt_table_init_bb` of ship_server.c against the key schedule of Blowfish.
use tethealla.Base.{ℕ, zero, suc, ◌+◌, ◌%◌, List, [], ◌∷◌, bit_xor, set}
use tethealla.Cipher.Words.{word, mix}
use tethealla.Cipher.Schedule.{first_word, key_word}
use tethealla.Cipher.Textbook.{feistel, subkeys}

-- The first `n` constants, each with four bytes of the key, which is read round and round from `at`
unfoldable pub with_key : List ℕ → ℕ → ℕ → List ℕ → List ℕ
with_key key zero at constants = constants
with_key key (suc n) at [] = []
with_key key (suc n) at (w ∷ constants) =
    bit_xor (first_word w) (key_word key at) ∷ with_key key n ((at + 4) % 48) constants

-- A block under a table: sixteen rounds, and two words for the whitening
abbrev pub blowfish : List ℕ → ℕ → ℕ → ℕ × ℕ
blowfish tbl l r = feistel (mix tbl) (subkeys tbl 16 0) (word tbl 16) (word tbl 17) l r

-- `n` blocks, each the encryption of the one before under the table so far, written to the table one
-- behind the other from the index `at` on
unfoldable pub chained_blocks : ℕ → ℕ → List ℕ → ℕ → ℕ → List ℕ
chained_blocks zero at tbl l r = tbl
chained_blocks (suc n) at tbl l r =
    let (l', r') = blowfish tbl l r in
    chained_blocks n (at + 2) (set (set tbl at l') (at + 1) r') l' r'
