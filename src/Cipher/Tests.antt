-- ===== src/Cipher/Tests.antt =====
-- The theorems on the packet cipher at a small table and a small lobby, and runs of the functions.
use tethealla.Base.{
  ℕ, zero, suc, ◌^◌, ◌<◌, ◌≡◌, refl, List, [], ◌∷◌, Option, none, some, false, arith, length,
  replicate, length-replicate,
}
use tethealla.Base.Bits.{Bytes}
use tethealla.Cipher.Words.{
  word, mix, encrypt_block, decrypt_block, each_block, pso_crypt_encrypt_bb, pso_crypt_decrypt_bb,
}
use tethealla.Cipher.Blocks.{AreWords, pso_crypt_encrypt_bb-decrypt}
use tethealla.Cipher.Textbook.{feistel, encrypt_block-feistel, next_words-feistel, subkeys}
use tethealla.Cipher.Schedule.{first_word, next_words, pso_crypt_table_init_bb}
use tethealla.Cipher.Schedule.Sound.{IsTable, pso_crypt_table_init_bb-IsTable}
use tethealla.Cipher.Outbox.{Outbox, Member, encrypt_copy, decrypt_copy, send_to_slots}
use tethealla.Cipher.Outbox.Carried.{Carries, Queued, encrypt_copy-Queued}
use tethealla.Cipher.Outbox.Delivered.{Delivered, send_to_slots-Delivered}

abbrev small_table : List ℕ
small_table = 0x1234_5678 ∷ 0xffff_ffff ∷ 3 ∷ 0x8000_0000 ∷ 5 ∷ 0xdead_beef ∷ []

abbrev hello : List ℕ
hello = 0x68 ∷ 0x65 ∷ 0x6c ∷ 0x6c ∷ 0x6f ∷ 0 ∷ 255 ∷ 7 ∷ []

pso_crypt_encrypt_bb-decrypt_example :
    ((out : List ℕ) × (pso_crypt_encrypt_bb small_table hello ≡ some out)
      × (length out ≡ 8)
      × Bytes out
      × (pso_crypt_decrypt_bb small_table out ≡ some hello))
    × ((out : List ℕ) × (pso_crypt_decrypt_bb small_table hello ≡ some out)
        × (length out ≡ 8)
        × Bytes out
        × (pso_crypt_encrypt_bb small_table out ≡ some hello))
pso_crypt_encrypt_bb-decrypt_example =
    pso_crypt_encrypt_bb-decrypt 1 small_table hello (omega arith) refl (omega arith)

encrypts :
    pso_crypt_encrypt_bb small_table hello ≡ some (127 ∷ 65 ∷ 173 ∷ 166 ∷ 22 ∷ 51 ∷ 88 ∷ 126 ∷ [])
unfolding pso_crypt_encrypt_bb each_block encrypt_block mix
encrypts = refl

encrypt_block-feistel_example :
    let k = word small_table in
    (encrypt_block small_table 1 2
      ≡ feistel (mix small_table) (k 0 ∷ k 1 ∷ k 2 ∷ k 3 ∷ []) (k 4) (k 5) 1 2)
    × (decrypt_block small_table 1 2
        ≡ feistel (mix small_table) (k 5 ∷ k 4 ∷ k 3 ∷ k 2 ∷ []) (k 1) (k 0) 1 2)
encrypt_block-feistel_example = encrypt_block-feistel small_table 1 2

next_words-feistel_example :
    next_words small_table 1 2
    ≡ feistel
        (mix small_table)
        (subkeys small_table 16 0)
        (word small_table 16)
        (word small_table 17)
        1
        2
next_words-feistel_example = next_words-feistel small_table 1 2

-- A word of `bbtable`
first_of_table : first_word 0x640c_ded2 ≡ 0xb6d2_d2de
unfolding first_word
first_of_table = refl

replicate-AreWords : (n v : ℕ) → v < 2 ^ 32 → AreWords (replicate n v)
replicate-AreWords zero v h = tt
replicate-AreWords (suc n) v h = (h, replicate-AreWords n v h)

replicate-Bytes : (n v : ℕ) → v < 256 → Bytes (replicate n v)
replicate-Bytes zero v h = tt
replicate-Bytes (suc n) v h = (h, replicate-Bytes n v h)

-- The table that this makes is one of words.
small_salt-IsTable :
    IsTable 1042 (pso_crypt_table_init_bb (replicate 1042 0x640c_ded2) (replicate 48 200))
small_salt-IsTable =
    pso_crypt_table_init_bb-IsTable (replicate 1042 0x640c_ded2) (replicate 48 200)
      (record {
        size_eq = length-replicate {A = ℕ} 1042 0x640c_ded2;
        words = replicate-AreWords 1042 0x640c_ded2 (omega arith);
      })
      (replicate-Bytes 48 200 (omega arith))

abbrev empty_outbox : Outbox
empty_outbox = record { sndbuf = []; snddata = 0; todc = false }

empty_outbox-Carries : Carries small_table [] empty_outbox
unfolding decrypt_copy pso_crypt_decrypt_bb each_block
empty_outbox-Carries = record { counted = refl; fits = omega arith; decrypted = refl }

abbrev ping : List ℕ
ping = 1 ∷ 2 ∷ 3 ∷ []

encrypt_copy-Queued_example :
    (o : Outbox) × (encrypt_copy small_table ping empty_outbox ≡ some o)
    × Queued small_table [] ping empty_outbox o
encrypt_copy-Queued_example =
    encrypt_copy-Queued small_table ping [] empty_outbox (omega arith) (omega arith)
      empty_outbox-Carries

-- The sender, another client, and an empty slot
abbrev slots : List (Option Member)
slots =
    some (record { guildcard = 42; server_cipher = small_table; outbox = empty_outbox })
    ∷ some (record { guildcard = 43; server_cipher = small_table; outbox = empty_outbox })
    ∷ none
    ∷ []

abbrev log : List (List (List ℕ))
log = [] ∷ [] ∷ [] ∷ []

send_to_slots-Delivered_example :
    (slots' : List (Option Member)) × (send_to_slots 4 ping 42 slots ≡ some slots')
    × Delivered ping 42 4 log slots slots'
send_to_slots-Delivered_example =
    send_to_slots-Delivered ping 42 (omega arith) 4 log slots
      ((omega arith, empty_outbox-Carries), ((omega arith, empty_outbox-Carries), tt))
