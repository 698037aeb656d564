-- ===== src/Cipher/Blocks.antt =====
-- The packet cipher is undone by its inverse, with any table of words.
use tethealla.Base.{
  ℕ, zero, suc, ◌*◌, ◌^◌, ◌<◌, ◌≡◌, refl, ap, ap₂, ◌∙◌, List, [], ◌∷◌, ◌++◌, some, bit_xor, arith,
  length,
}
use tethealla.Base.Bits.{Bytes, append-Bytes}
use tethealla.Base.Xor.{xor_assoc, xor_cancel_right, xor_cancel_left, xor_cancel_first, xor-lt-pow}
use tethealla.Item.{le32, read_u32}
use tethealla.Cipher.Words.{
  word, mix, encrypt_block, decrypt_block, block_bytes, each_block, pso_crypt_encrypt_bb,
  pso_crypt_decrypt_bb,
}

-- Every element is a word of 32 bits.
abbrev pub AreWords : List ℕ → Type 0
AreWords [] = Unit
AreWords (x ∷ xs) = (x < 2 ^ 32) × AreWords xs

pub word-lt : (tbl : List ℕ) (k : ℕ) → AreWords tbl → word tbl k < 2 ^ 32
word-lt [] k h = omega arith
word-lt (x ∷ tbl) zero h = h.0
word-lt (x ∷ tbl) (suc k) h = word-lt tbl k h.1

pub xor-lt : (a b : ℕ) → a < 2 ^ 32 → b < 2 ^ 32 → bit_xor a b < 2 ^ 32
xor-lt a b = xor-lt-pow 32 a b

pub mix-lt : (tbl : List ℕ) (x : ℕ) → mix tbl x < 2 ^ 32
unfolding mix
mix-lt tbl x = omega arith

-- Mixing a sum in and out again, in the groupings of the code
undo_sum : (p s k : ℕ) → bit_xor (bit_xor (bit_xor p s) k) (bit_xor s k) ≡ p
undo_sum p s k =
    ap (λ t. bit_xor t (bit_xor s k)) (xor_assoc p s k) ∙ xor_cancel_right p (bit_xor s k)

undo_parts : (b s k : ℕ) → bit_xor (bit_xor (bit_xor b (bit_xor s k)) s) k ≡ b
undo_parts b s k = xor_assoc (bit_xor b (bit_xor s k)) s k ∙ xor_cancel_right b (bit_xor s k)

module _ (tbl : List ℕ) where
  pub decrypt_block-encrypt_block :
      (x y : ℕ) → let (x', y') = encrypt_block tbl x y in decrypt_block tbl x' y' ≡ (x, y)
  unfolding encrypt_block decrypt_block
  decrypt_block-encrypt_block x y =
      simp (xor_cancel_right, xor_cancel_left, xor_cancel_first, undo_sum, undo_parts)

  pub encrypt_block-decrypt_block :
      (x y : ℕ) → let (x', y') = decrypt_block tbl x y in encrypt_block tbl x' y' ≡ (x, y)
  unfolding encrypt_block decrypt_block
  encrypt_block-decrypt_block x y =
      simp (xor_cancel_right, xor_cancel_left, xor_cancel_first, undo_sum, undo_parts)

-- Both words of a pair
abbrev pub WordPair : ℕ × ℕ → Type 0
WordPair p = (p.0 < 2 ^ 32) × (p.1 < 2 ^ 32)

module _ (tbl : List ℕ) (words : AreWords tbl) (x y : ℕ) (hx : x < 2 ^ 32) (hy : y < 2 ^ 32) where
  pub encrypt_block-WordPair : WordPair (encrypt_block tbl x y)
  unfolding encrypt_block
  encrypt_block-WordPair =
      let w = λ (k : ℕ). word-lt tbl k words in
      let m = mix-lt tbl in
      let x₁ = xor-lt _ _ hx (w 0) in
      let y₁ = xor-lt _ _ (xor-lt _ _ (m _) (w 1)) hy in
      let x₂ = xor-lt _ _ x₁ (xor-lt _ _ (m _) (w 2)) in
      let y₂ = xor-lt _ _ (xor-lt _ _ y₁ (m _)) (w 3) in
      (xor-lt _ _ y₂ (w 5), xor-lt _ _ x₂ (xor-lt _ _ (m _) (w 4)))

  pub decrypt_block-WordPair : WordPair (decrypt_block tbl x y)
  unfolding decrypt_block
  decrypt_block-WordPair =
      let w = λ (k : ℕ). word-lt tbl k words in
      let m = mix-lt tbl in
      let x₁ = xor-lt _ _ hx (w 5) in
      let y₁ = xor-lt _ _ (xor-lt _ _ (m _) (w 4)) hy in
      let x₂ = xor-lt _ _ x₁ (xor-lt _ _ (m _) (w 3)) in
      let y₂ = xor-lt _ _ (xor-lt _ _ y₁ (m _)) (w 2) in
      (xor-lt _ _ y₂ (w 0), xor-lt _ _ x₂ (xor-lt _ _ (m _) (w 1)))

read_u32-le32 : (n : ℕ) → n < 2 ^ 32 → read_u32 (le32 n) ≡ n
read_u32-le32 n h = omega arith

read_u32-lt : (a b c d : ℕ) → Bytes (a ∷ b ∷ c ∷ d ∷ []) → read_u32 (a ∷ b ∷ c ∷ d ∷ []) < 2 ^ 32
read_u32-lt a b c d h = omega arith

four_eq :
    (a b c d p q r t : ℕ)
    → a ≡ p
    → b ≡ q
    → c ≡ r
    → d ≡ t
    → ◌≡◌ {A = List ℕ} (a ∷ b ∷ c ∷ d ∷ []) (p ∷ q ∷ r ∷ t ∷ [])
four_eq a b c d p q r t e f g h = cc

le32-read_u32 :
    (a b c d : ℕ)
    → Bytes (a ∷ b ∷ c ∷ d ∷ [])
    → le32 (read_u32 (a ∷ b ∷ c ∷ d ∷ [])) ≡ a ∷ b ∷ c ∷ d ∷ []
le32-read_u32 a b c d h =
    four_eq _ _ _ _ a b c d (omega arith) (omega arith) (omega arith) (omega arith)

le32-Bytes : (n : ℕ) → Bytes (le32 n)
le32-Bytes n = omega arith

-- The loop with `f` gives as many bytes, from which the loop with `g` gives back the data.
pub record IsUndone (g : ℕ → ℕ → ℕ × ℕ) (bytes out : List ℕ) : Type 0 where
  pub size : length out ≡ length bytes
  pub bounded : Bytes out
  pub undone : each_block g out ≡ some bytes

module _ (f g : ℕ → ℕ → ℕ × ℕ) (f-WordPair : (x y : ℕ) → x < 2 ^ 32 → y < 2 ^ 32 → WordPair (f x y))
    (inverse : (x y : ℕ) → g (f x y).0 (f x y).1 ≡ (x, y)) where
  IsUndone-block :
      (a b c d e k h i : ℕ) (rest later : List ℕ)
      → Bytes (a ∷ b ∷ c ∷ d ∷ [])
      → Bytes (e ∷ k ∷ h ∷ i ∷ [])
      → IsUndone g rest later
      → let p = f (read_u32 (a ∷ b ∷ c ∷ d ∷ [])) (read_u32 (e ∷ k ∷ h ∷ i ∷ [])) in
        IsUndone g (a ∷ b ∷ c ∷ d ∷ e ∷ k ∷ h ∷ i ∷ rest) (block_bytes p ++ later)
  unfolding each_block
  IsUndone-block a b c d e k h i rest later h₁ h₂ u =
      let x = read_u32 (a ∷ b ∷ c ∷ d ∷ []) in
      let y = read_u32 (e ∷ k ∷ h ∷ i ∷ []) in
      let words = f-WordPair x y (read_u32-lt a b c d h₁) (read_u32-lt e k h i h₂) in
      record {
        size = omega (arith, u.size);
        bounded =
            append-Bytes (block_bytes (f x y)) later
              (append-Bytes (le32 (f x y).0) (le32 (f x y).1) (le32-Bytes (f x y).0)
                (le32-Bytes (f x y).1))
              u.bounded;
        undone = rw u.undone (
            ap (λ p. some (block_bytes p ++ rest))
              (ap₂ g (read_u32-le32 (f x y).0 words.0) (read_u32-le32 (f x y).1 words.1)
                ∙ inverse x y)
            ∙ ap₂ (λ p q. some ((p ++ q) ++ rest)) (le32-read_u32 a b c d h₁)
                (le32-read_u32 e k h i h₂));
      }

  pub each_block-inverse :
      (n : ℕ) (bytes : List ℕ)
      → length bytes ≡ 8 * n
      → Bytes bytes
      → (out : List ℕ) × (each_block f bytes ≡ some out) × IsUndone g bytes out
  unfolding each_block
  each_block-inverse zero [] size h =
      ([], refl, record { size = refl; bounded = tt; undone = refl })
  each_block-inverse zero (a ∷ bytes) size bounded = absurd (omega arith)
  each_block-inverse (suc n) [] size bounded = absurd (omega arith)
  each_block-inverse (suc n) (a ∷ []) size bounded = absurd (omega arith)
  each_block-inverse (suc n) (a ∷ b ∷ []) size bounded = absurd (omega arith)
  each_block-inverse (suc n) (a ∷ b ∷ c ∷ []) size bounded = absurd (omega arith)
  each_block-inverse (suc n) (a ∷ b ∷ c ∷ d ∷ []) size bounded = absurd (omega arith)
  each_block-inverse (suc n) (a ∷ b ∷ c ∷ d ∷ e ∷ []) size bounded = absurd (omega arith)
  each_block-inverse (suc n) (a ∷ b ∷ c ∷ d ∷ e ∷ k ∷ []) size bounded = absurd (omega arith)
  each_block-inverse (suc n) (a ∷ b ∷ c ∷ d ∷ e ∷ k ∷ h ∷ []) size bounded = absurd (omega arith)
  each_block-inverse (suc n) (a ∷ b ∷ c ∷ d ∷ e ∷ k ∷ h ∷ i ∷ rest) size
        (ha, (hb, (hc, (hd, (he, (hg, (hh, (hi, hr)))))))) =
      let (later, e₁, u) = each_block-inverse n rest (omega arith) hr in
      (
        block_bytes (f (read_u32 (a ∷ b ∷ c ∷ d ∷ [])) (read_u32 (e ∷ k ∷ h ∷ i ∷ []))) ++ later,
        rw e₁,
        IsUndone-block a b c d e k h i rest later (ha, (hb, (hc, (hd, tt))))
            (he, (hg, (hh, (hi, tt)))) u,
      )

-- With any table of words, data of whole blocks is encrypted to as many bytes, which are decrypted
-- to the data; and so the other way round. Neither runs over the end of the data.
pub pso_crypt_encrypt_bb-decrypt :
    (n : ℕ) (tbl bytes : List ℕ)
    → AreWords tbl
    → length bytes ≡ 8 * n
    → Bytes bytes
    → ((out : List ℕ) × (pso_crypt_encrypt_bb tbl bytes ≡ some out)
        × (length out ≡ length bytes)
        × Bytes out
        × (pso_crypt_decrypt_bb tbl out ≡ some bytes))
      × ((out : List ℕ) × (pso_crypt_decrypt_bb tbl bytes ≡ some out)
          × (length out ≡ length bytes)
          × Bytes out
          × (pso_crypt_encrypt_bb tbl out ≡ some bytes))
unfolding pso_crypt_encrypt_bb pso_crypt_decrypt_bb
pso_crypt_encrypt_bb-decrypt n tbl bytes words size bounded =
    let (out, e, u) =
      each_block-inverse (encrypt_block tbl) (decrypt_block tbl) (encrypt_block-WordPair tbl words)
        (decrypt_block-encrypt_block tbl) n bytes size bounded in
    let (out', e', u') =
      each_block-inverse (decrypt_block tbl) (encrypt_block tbl) (decrypt_block-WordPair tbl words)
        (encrypt_block-decrypt_block tbl) n bytes size bounded in
    ((out, e, u.size, u.bounded, u.undone), (out', e', u'.size, u'.bounded, u'.undone))
