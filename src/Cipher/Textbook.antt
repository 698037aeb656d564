-- ===== src/Cipher/Textbook.antt =====
-- The packet cipher against the textbook: a Feistel network of Blowfish's kind, which swaps the
-- halves in each round and undoes the last swap.
use tethealla.Base.{
  ℕ, zero, suc, ◌+◌, ◌*◌, ◌≡◌, ap, ap₂, refl, sym, ◌∙◌, List, [], ◌∷◌, ◌++◌, bit_xor,
}
use tethealla.Base.Xor.{xor_assoc, xor_comm}
use tethealla.Cipher.Words.{word, mix, encrypt_block, decrypt_block}
use tethealla.Cipher.Schedule.{middle_rounds, next_words}

-- A round for each subkey: the left half is keyed, its mix goes into the right one, and they swap.
pub feistel_rounds : (ℕ → ℕ) → List ℕ → ℕ → ℕ → ℕ × ℕ
feistel_rounds f [] l r = (l, r)
feistel_rounds f (k ∷ ks) l r = feistel_rounds f ks (bit_xor r (f (bit_xor l k))) (bit_xor l k)

-- The rounds, the last swap undone, and the two subkeys that whiten the halves.
unfoldable pub feistel : (ℕ → ℕ) → List ℕ → ℕ → ℕ → ℕ → ℕ → ℕ × ℕ
feistel f ks whiten_right whiten_left l r =
    let (l', r') = feistel_rounds f ks l r in (bit_xor r' whiten_left, bit_xor l' whiten_right)

turn_left : (a b c : ℕ) → bit_xor a (bit_xor b c) ≡ bit_xor (bit_xor a b) c
turn_left a b c = sym (xor_assoc a b c)

-- The half that comes in last in the code comes in first in the network.
bring_first : (m k y : ℕ) → bit_xor (bit_xor m k) y ≡ bit_xor (bit_xor y m) k
bring_first m k y = xor_comm (bit_xor m k) y ∙ turn_left y m k

-- Encryption is the network of four rounds with the first six words of the table as subkeys, and
-- decryption is the same network with the subkeys in the opposite order.
pub encrypt_block-feistel :
    (tbl : List ℕ) (x y : ℕ)
    → let k = word tbl in
      (encrypt_block tbl x y ≡ feistel (mix tbl) (k 0 ∷ k 1 ∷ k 2 ∷ k 3 ∷ []) (k 4) (k 5) x y)
      × (decrypt_block tbl x y ≡ feistel (mix tbl) (k 5 ∷ k 4 ∷ k 3 ∷ k 2 ∷ []) (k 1) (k 0) x y)
unfolding encrypt_block decrypt_block feistel feistel_rounds
encrypt_block-feistel tbl x y =
    let first = bring_first (mix tbl (bit_xor x (word tbl 0))) (word tbl 1) y in
    let last = bring_first (mix tbl (bit_xor x (word tbl 5))) (word tbl 4) y in
    (simp (first, turn_left), simp (last, turn_left))

-- `n` subkeys of a table, from the index `k` on
abbrev pub subkeys : List ℕ → ℕ → ℕ → List ℕ
subkeys tbl zero k = []
subkeys tbl (suc n) k = word tbl k ∷ subkeys tbl n (k + 1)

module _ (tbl : List ℕ) where
  abbrev keyed : ℕ → ℕ → ℕ → ℕ
  keyed x y k = bit_xor x (bit_xor (mix tbl y) (word tbl k))

  -- Two rounds of the network are one of the loop.
  two_rounds :
      (k k' : ℕ) (ks : List ℕ) (esi ecx : ℕ)
      → let esi' = keyed esi ecx k in
        let ecx' = keyed ecx esi' k' in
        feistel_rounds (mix tbl) (word tbl k ∷ word tbl k' ∷ ks) (bit_xor esi (mix tbl ecx)) ecx
        ≡ feistel_rounds (mix tbl) ks (bit_xor esi' (mix tbl ecx')) ecx'
  unfolding feistel_rounds
  two_rounds k k' ks esi ecx = rw (
    xor_assoc esi (mix tbl ecx) (word tbl k),
    xor_assoc ecx (mix tbl (keyed esi ecx k)) (word tbl k'),
  )

  -- The subkeys of `n` rounds of the loop
  abbrev loop_keys : ℕ → ℕ → List ℕ
  loop_keys zero x = []
  loop_keys (suc n) x = word tbl (x * 2 + 2) ∷ word tbl (x * 2 + 3) ∷ loop_keys n (x + 1)

  middle_rounds-feistel :
      (n x : ℕ) (ks : List ℕ) (esi ecx : ℕ)
      → let (esi', ecx') = middle_rounds n x tbl esi ecx in
        feistel_rounds (mix tbl) (loop_keys n x ++ ks) (bit_xor esi (mix tbl ecx)) ecx
        ≡ feistel_rounds (mix tbl) ks (bit_xor esi' (mix tbl ecx')) ecx'
  unfolding middle_rounds
  middle_rounds-feistel zero x ks esi ecx = refl
  middle_rounds-feistel (suc n) x ks esi ecx =
      let esi' = keyed esi ecx (x * 2 + 2) in
      let ecx' = keyed ecx esi' (x * 2 + 3) in
      two_rounds (x * 2 + 2) (x * 2 + 3) (loop_keys n (x + 1) ++ ks) esi ecx
      ∙ middle_rounds-feistel n (x + 1) ks esi' ecx'

  first_rounds :
      (ks : List ℕ) (l r : ℕ)
      → let esi = bit_xor l (word tbl 0) in
        let ecx = keyed r esi 1 in
        feistel_rounds (mix tbl) (word tbl 0 ∷ word tbl 1 ∷ ks) l r
        ≡ feistel_rounds (mix tbl) ks (bit_xor esi (mix tbl ecx)) ecx
  unfolding feistel_rounds
  first_rounds ks l r = rw (xor_assoc r (mix tbl (bit_xor l (word tbl 0))) (word tbl 1))

  no_rounds : (l r : ℕ) → feistel_rounds (mix tbl) [] l r ≡ (l, r)
  unfolding feistel_rounds
  no_rounds l r = refl

  -- The words that fill the table are the network of sixteen rounds with its first sixteen words as
  -- subkeys and the next two for the whitening: a block of Blowfish.
  pub next_words-feistel :
      (l r : ℕ)
      → next_words tbl l r ≡ feistel (mix tbl) (subkeys tbl 16 0) (word tbl 16) (word tbl 17) l r
  unfolding next_words feistel
  next_words-feistel l r =
      let last_keys = word tbl 14 ∷ word tbl 15 ∷ [] in
      let esi₁ = bit_xor l (word tbl 0) in
      let ecx₁ = keyed r esi₁ 1 in
      let m = middle_rounds 6 0 tbl esi₁ ecx₁ in
      let esi₃ = keyed m.0 m.1 14 in
      let eax = keyed m.1 esi₃ 15 in
      let rounds : feistel_rounds (mix tbl) (subkeys tbl 16 0) l r
          ≡ (bit_xor esi₃ (mix tbl eax), eax) =
        first_rounds (loop_keys 6 0 ++ last_keys) l r
        ∙ (middle_rounds-feistel 6 0 last_keys esi₁ ecx₁
            ∙ (two_rounds 14 15 [] m.0 m.1 ∙ no_rounds (bit_xor esi₃ (mix tbl eax)) eax)) in
      ap₂ (λ a b. (a, b)) (xor_comm (word tbl 17) eax)
        (bring_first (mix tbl eax) (word tbl 16) esi₃)
      ∙ sym (ap (λ p. (bit_xor p.1 (word tbl 17), bit_xor p.0 (word tbl 16))) rounds)
