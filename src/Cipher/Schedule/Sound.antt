-- ===== src/Cipher/Schedule/Sound.antt =====
-- The table that `pso_crypt_table_init_bb` makes is one of 1042 words, whatever the salt, so that
-- the cipher with it is sound.
use tethealla.Base.{
  ℕ, zero, suc, ◌+◌, ◌*◌, ◌/◌, ◌%◌, ◌^◌, ◌<◌, ◌≡◌, refl, ◌∙◌, List, [], ◌∷◌, bit_xor, arith, length,
  get_or, set, length-set,
}
use tethealla.Base.Bits.{Bytes, bit_xor-lt}
use tethealla.Base.Xor.{xor-lt-pow}
use tethealla.Game.{map_first}
use tethealla.Cipher.Words.{word, mix}
use tethealla.Cipher.Blocks.{AreWords, WordPair, word-lt, mix-lt, xor-lt}
use tethealla.Cipher.Schedule.{
  pso_crypt_init_key_bb, first_word, key_word, mix_key, middle_rounds, next_words, Filling,
  fill_words, fill_boxes, pso_crypt_table_init_bb,
}

set-AreWords : (tbl : List ℕ) (k v : ℕ) → AreWords tbl → v < 2 ^ 32 → AreWords (set tbl k v)
set-AreWords [] k v h p = tt
set-AreWords (x ∷ tbl) zero v h p = (p, h.1)
set-AreWords (x ∷ tbl) (suc k) v h p = (h.0, set-AreWords tbl k v h.1 p)

get_or-lt : (s : List ℕ) (k : ℕ) → Bytes s → get_or s k 0 < 256
get_or-lt [] k h = omega arith
get_or-lt (x ∷ s) zero h = h.0
get_or-lt (x ∷ s) (suc k) h = get_or-lt s k h.1

pso_crypt_init_key_bb-Bytes : (n : ℕ) (s : List ℕ) → Bytes s → Bytes (pso_crypt_init_key_bb n s)
unfolding pso_crypt_init_key_bb
pso_crypt_init_key_bb-Bytes (suc n) (a ∷ b ∷ c ∷ rest) (ha, (hb, (hc, hr))) = (
  bit_xor-lt a 0x19 ha (omega arith),
  (
    bit_xor-lt b 0x16 hb (omega arith),
    (bit_xor-lt c 0x18 hc (omega arith), pso_crypt_init_key_bb-Bytes n rest hr),
  ),
)
pso_crypt_init_key_bb-Bytes zero s h = h
pso_crypt_init_key_bb-Bytes (suc n) [] h = h
pso_crypt_init_key_bb-Bytes (suc n) (a ∷ []) h = h
pso_crypt_init_key_bb-Bytes (suc n) (a ∷ b ∷ []) h = h

key_word-lt : (s : List ℕ) (ecx : ℕ) → Bytes s → key_word s ecx < 2 ^ 32
key_word-lt s ecx h = omega (
  arith,
  get_or-lt s ecx h,
  get_or-lt s ((ecx + 1) % 48) h,
  get_or-lt s ((ecx + 2) % 48) h,
  get_or-lt s ((ecx + 3) % 48) h,
)

first_word-lt : (w : ℕ) → first_word w < 2 ^ 32
unfolding first_word
first_word-lt w =
    let low = w % 256 * 256 + w / 256 % 256 in
    omega (arith, xor-lt-pow 16 (w / 65536 % 65536) low (omega arith) (omega arith))

-- A table of `size` words
pub record IsTable (size : ℕ) (tbl : List ℕ) : Type 0 where
  pub size_eq : length tbl ≡ size
  pub words : AreWords tbl

map_first-IsTable :
    (n : ℕ) {size : ℕ} (tbl : List ℕ) → IsTable size tbl → IsTable size (map_first first_word n tbl)
unfolding map_first
map_first-IsTable zero tbl h = h
map_first-IsTable (suc n) [] h = h
map_first-IsTable (suc n) {size} (x ∷ tbl) h =
    let rest = map_first-IsTable n tbl (record { size_eq = refl; words = h.words.1 }) in
    record {
      size_eq = omega (arith, rest.size_eq, h.size_eq);
      words = (first_word-lt x, rest.words);
    }

set-IsTable :
    {size : ℕ} (tbl : List ℕ) (k v : ℕ) → IsTable size tbl → v < 2 ^ 32 → IsTable size (set tbl k v)
set-IsTable tbl k v h p = record {
  size_eq = length-set tbl k v ∙ h.size_eq;
  words = set-AreWords tbl k v h.words p;
}

mix_key-IsTable :
    (n ebx ecx : ℕ) (s : List ℕ) {size : ℕ} (tbl : List ℕ)
    → Bytes s
    → IsTable size tbl
    → IsTable size (mix_key n ebx ecx s tbl)
unfolding mix_key
mix_key-IsTable zero ebx ecx s tbl b h = h
mix_key-IsTable (suc n) ebx ecx s tbl b h =
    mix_key-IsTable n (ebx + 1) ((ecx + 4) % 48) s
      (set tbl ebx (bit_xor (word tbl ebx) (key_word s ecx))) b
      (set-IsTable tbl ebx (bit_xor (word tbl ebx) (key_word s ecx)) h
        (xor-lt (word tbl ebx) (key_word s ecx) (word-lt tbl ebx h.words) (key_word-lt s ecx b)))

-- What the loops over the table keep
record IsFilling (size : ℕ) (s : Filling) : Type 0 where
  table : IsTable size s.tbl
  esi_lt : s.esi < 2 ^ 32
  ecx_lt : s.ecx < 2 ^ 32

module _ (tbl : List ℕ) (words : AreWords tbl) where
  keyed-lt : (x y k : ℕ) → x < 2 ^ 32 → bit_xor x (bit_xor (mix tbl y) (word tbl k)) < 2 ^ 32
  keyed-lt x y k h =
      xor-lt x (bit_xor (mix tbl y) (word tbl k)) h
        (xor-lt (mix tbl y) (word tbl k) (mix-lt tbl y) (word-lt tbl k words))

  middle_rounds-WordPair :
      (n x esi ecx : ℕ) → esi < 2 ^ 32 → ecx < 2 ^ 32 → WordPair (middle_rounds n x tbl esi ecx)
  unfolding middle_rounds
  middle_rounds-WordPair zero x esi ecx p q = (p, q)
  middle_rounds-WordPair (suc n) x esi ecx p q =
      let esi' = bit_xor esi (bit_xor (mix tbl ecx) (word tbl (x * 2 + 2))) in
      let ecx' = bit_xor ecx (bit_xor (mix tbl esi') (word tbl (x * 2 + 3))) in
      middle_rounds-WordPair n (x + 1) esi' ecx' (keyed-lt esi ecx (x * 2 + 2) p)
        (keyed-lt ecx esi' (x * 2 + 3) q)

  next_words-WordPair :
      (esi ecx : ℕ) → esi < 2 ^ 32 → ecx < 2 ^ 32 → WordPair (next_words tbl esi ecx)
  unfolding next_words
  next_words-WordPair esi ecx p q =
      let esi₁ = bit_xor esi (word tbl 0) in
      let ecx₁ = bit_xor ecx (bit_xor (mix tbl esi₁) (word tbl 1)) in
      let m = middle_rounds 6 0 tbl esi₁ ecx₁ in
      let esi₃ = bit_xor m.0 (bit_xor (mix tbl m.1) (word tbl 14)) in
      let eax = bit_xor m.1 (bit_xor (mix tbl esi₃) (word tbl 15)) in
      let (pm, qm) =
        middle_rounds-WordPair 6 0 esi₁ ecx₁ (xor-lt esi (word tbl 0) p (word-lt tbl 0 words))
          (keyed-lt ecx esi₁ 1 q) in
      (
        xor-lt (word tbl 17) eax (word-lt tbl 17 words) (keyed-lt m.1 esi₃ 15 qm),
        xor-lt (bit_xor (mix tbl eax) (word tbl 16)) esi₃
            (xor-lt (mix tbl eax) (word tbl 16) (mix-lt tbl eax) (word-lt tbl 16 words))
            (keyed-lt m.0 m.1 14 pm),
      )

fill_words-IsFilling :
    (n k : ℕ) {size : ℕ} (s : Filling) → IsFilling size s → IsFilling size (fill_words n k s)
unfolding fill_words
fill_words-IsFilling zero k s h = h
fill_words-IsFilling (suc n) k s h =
    let p = next_words s.tbl s.esi s.ecx in
    let (e, c) = next_words-WordPair s.tbl h.table.words s.esi s.ecx h.esi_lt h.ecx_lt in
    fill_words-IsFilling n (k + 2)
      (record { tbl = set (set s.tbl k p.0) (k + 1) p.1; esi = p.0; ecx = p.1 })
      (record {
        table = set-IsTable (set s.tbl k p.0) (k + 1) p.1 (set-IsTable s.tbl k p.0 h.table e) c;
        esi_lt = e;
        ecx_lt = c;
      })

fill_boxes-IsFilling :
    (n ou : ℕ) {size : ℕ} (s : Filling) → IsFilling size s → IsFilling size (fill_boxes n ou s)
unfolding fill_boxes
fill_boxes-IsFilling zero ou s h = h
fill_boxes-IsFilling (suc n) ou s h =
    fill_boxes-IsFilling n (ou + 0x400) (fill_words 128 (ou / 4 + 18) s)
      (fill_words-IsFilling 128 (ou / 4 + 18) s h)

-- From a salt of bytes and a table of constants of 1042 words, the table that is made has 1042
-- words of 32 bits.
pub pso_crypt_table_init_bb-IsTable :
    (bbtable salt : List ℕ)
    → IsTable 1042 bbtable
    → Bytes salt
    → IsTable 1042 (pso_crypt_table_init_bb bbtable salt)
unfolding pso_crypt_table_init_bb
pso_crypt_table_init_bb-IsTable bbtable salt constants bounded =
    let s = pso_crypt_init_key_bb 16 salt in
    let first = map_first first_word 18 bbtable in
    let keyed =
      mix_key-IsTable 18 0 0 s first (pso_crypt_init_key_bb-Bytes 16 salt bounded)
        (map_first-IsTable 18 bbtable constants) in
    let start : Filling = record { tbl = mix_key 18 0 0 s first; esi = 0; ecx = 0 } in
    let subkeys =
      fill_words-IsFilling 9 0 start
        (record { table = keyed; esi_lt = omega arith; ecx_lt = omega arith }) in
    (fill_boxes-IsFilling 4 0 (fill_words 9 0 start) subkeys).table
