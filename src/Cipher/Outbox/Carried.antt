-- ===== src/Cipher/Outbox/Carried.antt =====
-- What a client decrypts of its queue is every packet that was queued for it, in order.
use tethealla.Base.{
  ℕ, zero, suc, ◌+◌, ◌-◌, ◌*◌, ◌/◌, ◌%◌, ◌≤◌, ◌<◌, ◌≡◌, ◌⊎◌, inl, inr, refl, sym, ap, subst, ◌∙◌,
  List, [], ◌∷◌, ◌++◌, append_assoc, append-nil, true, false, Option, none, some, arith, ltb, ◌==◌,
  length, replicate, length-append, length-replicate, Bool-cases, ==_iff,
}
use tethealla.Base.Bits.{Bytes, append-Bytes}
use tethealla.Item.{read_u32}
use tethealla.Cipher.Words.{block_bytes, each_block, decrypt_block, pso_crypt_decrypt_bb}
use tethealla.Cipher.Blocks.{AreWords, pso_crypt_encrypt_bb-decrypt}
use tethealla.Cipher.Outbox.{tcp_buffer_size, Outbox, pad, encrypt_copy, decrypt_copy}

-- How many zeros fill a packet up to whole blocks
abbrev pub padding : List ℕ → ℕ
padding src = (8 - length src % 8) % 8

-- A packet as it is decrypted
abbrev pub padded : List ℕ → List ℕ
padded src = src ++ replicate (padding src) 0

abbrev pub all_padded : List (List ℕ) → List ℕ
all_padded [] = []
all_padded (p ∷ ps) = padded p ++ all_padded ps

pad-replicate :
    (n m : ℕ) (dest : List ℕ)
    → (length dest + m) % 8 ≡ 0
    → m ≤ n
    → m < 8
    → pad n dest ≡ dest ++ replicate m 0
unfolding pad
pad-replicate zero zero dest whole p q = sym (append-nil dest)
pad-replicate zero (suc m) dest whole p q = absurd (omega arith)
pad-replicate (suc n) zero dest whole p q =
    rw ((==_iff (length dest % 8) 0).1 (omega arith)) (sym (append-nil dest))
pad-replicate (suc n) (suc m) dest whole p q =
    let e : (length dest % 8 == 0) ≡ false = ground arith in
    rw e (
      pad-replicate n m (dest ++ 0 ∷ []) (omega (arith, length-append dest (0 ∷ []))) (omega arith)
        (omega arith)
      ∙ append_assoc dest (0 ∷ []) (replicate m 0))

padded-Bytes : (n : ℕ) → Bytes (replicate n 0)
padded-Bytes zero = tt
padded-Bytes (suc n) = (omega arith, padded-Bytes n)

pad-padded : (src : List ℕ) → pad 7 src ≡ padded src
pad-padded src = pad-replicate 7 (padding src) src (omega arith) (omega arith) (omega arith)

length-padded : (src : List ℕ) → length (padded src) ≡ 8 * ((length src + 7) / 8)
length-padded src =
    omega (
      arith,
      length-append src (replicate (padding src) 0),
      length-replicate {A = ℕ} (padding src) 0,
    )

some_inj : (a b : List ℕ) → some a ≡ some b → a ≡ b
some_inj a b h = cc

abbrev prepend : List ℕ → Option (List ℕ) → Option (List ℕ)
prepend xs o = elim o [ none ↦ none | some ys ↦ some (xs ++ ys) ]

prepend_twice :
    (xs ys : List ℕ) (o : Option (List ℕ)) → prepend xs (prepend ys o) ≡ prepend (xs ++ ys) o
prepend_twice xs ys none = refl
prepend_twice xs ys (some zs) = ap some (sym (append_assoc xs ys zs))

prepend_nil : (o : Option (List ℕ)) → o ≡ prepend [] o
prepend_nil none = refl
prepend_nil (some xs) = refl

append_block :
    (first out : List ℕ) (rest more last : Option (List ℕ))
    → ((xs : List ℕ) → rest ≡ some xs → more ≡ prepend xs last)
    → prepend first rest ≡ some out
    → prepend first more ≡ prepend out last
append_block first out none more last ih p = cc
append_block first out (some xs) more last ih p =
    subst (λ t. prepend first more ≡ prepend t last) (some_inj (first ++ xs) out p)
      (ap (prepend first) (ih xs refl) ∙ prepend_twice first xs last)

-- The loop on one part of the data after the other
module _ (g : ℕ → ℕ → ℕ × ℕ) where
  each_block-append :
      (xs ys out : List ℕ)
      → each_block g xs ≡ some out
      → each_block g (xs ++ ys) ≡ prepend out (each_block g ys)
  unfolding each_block
  each_block-append [] ys out p =
      subst (λ t. each_block g ys ≡ prepend t (each_block g ys)) (some_inj [] out p)
        (prepend_nil (each_block g ys))
  each_block-append (a ∷ []) ys out p = cc
  each_block-append (a ∷ b ∷ []) ys out p = cc
  each_block-append (a ∷ b ∷ c ∷ []) ys out p = cc
  each_block-append (a ∷ b ∷ c ∷ d ∷ []) ys out p = cc
  each_block-append (a ∷ b ∷ c ∷ d ∷ e ∷ []) ys out p = cc
  each_block-append (a ∷ b ∷ c ∷ d ∷ e ∷ k ∷ []) ys out p = cc
  each_block-append (a ∷ b ∷ c ∷ d ∷ e ∷ k ∷ h ∷ []) ys out p = cc
  each_block-append (a ∷ b ∷ c ∷ d ∷ e ∷ k ∷ h ∷ i ∷ rest) ys out p =
      append_block (block_bytes (g (read_u32 (a ∷ b ∷ c ∷ d ∷ [])) (read_u32 (e ∷ k ∷ h ∷ i ∷ []))))
        out (each_block g rest) (each_block g (rest ++ ys)) (each_block g ys)
        (each_block-append rest ys) p

-- The queue holds these packets: decrypted as one, it is all of them, filled up and in order. Its
-- length is counted, and is within the buffer.
pub record Carries (tbl : List ℕ) (packets : List (List ℕ)) (o : Outbox) : Type 0 where
  pub counted : o.snddata ≡ length o.sndbuf
  pub fits : o.snddata ≤ tcp_buffer_size
  pub decrypted : decrypt_copy tbl o.sndbuf ≡ some (all_padded packets)

all_padded-append :
    (ps : List (List ℕ)) (p : List ℕ) → all_padded (ps ++ p ∷ []) ≡ all_padded ps ++ padded p
all_padded-append [] p = append-nil (padded p)
all_padded-append (q ∷ ps) p =
    ap (λ t. padded q ++ t) (all_padded-append ps p)
    ∙ sym (append_assoc (padded q) (all_padded ps) (padded p))

ltb_false→le : (a b : ℕ) → ltb a b ≡ false → b ≤ a
ltb_false→le a b h = ground arith

-- What `encryptcopy` did: the packet is queued, or there was no room for it.
abbrev pub Queued : List ℕ → List (List ℕ) → List ℕ → Outbox → Outbox → Type 0
Queued tbl packets src o o' =
    ((o.snddata + length src + 7 ≤ tcp_buffer_size)
      × Carries tbl (packets ++ src ∷ []) o'
      × (o'.todc ≡ o.todc))
    ⊎ ((tcp_buffer_size < o.snddata + length src + 7) × (o' ≡ record o { todc = true }))

-- A packet of bytes put into a queue: `encryptcopy` never runs over the data. Where the buffer has
-- room for it, the queue then carries it after the packets that it carried, within the buffer, and
-- the client stays; otherwise the queue is as it was and the client is to be disconnected.
pub encrypt_copy-Queued :
    (tbl src : List ℕ) (packets : List (List ℕ)) (o : Outbox)
    → AreWords tbl
    → Bytes src
    → Carries tbl packets o
    → (o' : Outbox) × (encrypt_copy tbl src o ≡ some o') × Queued tbl packets src o o'
unfolding encrypt_copy decrypt_copy pso_crypt_decrypt_bb
encrypt_copy-Queued tbl src packets o words bounded c =
    let full = ltb tcp_buffer_size (o.snddata + length src + 7) in
    let blocks = (length src + 7) / 8 in
    let ((out, e, size, _, back), _) =
      pso_crypt_encrypt_bb-decrypt blocks tbl (padded src) words (length-padded src)
        (append-Bytes src (replicate (padding src) 0) bounded (padded-Bytes (padding src))) in
    elim (Bool-cases full) [
      | inl no_room ↦ (record o { todc = true }, rw no_room, inr (ground arith, refl))
      | inr room ↦ (
        record o { sndbuf = o.sndbuf ++ out; snddata = o.snddata + length out },
        rw (room, pad-padded src, e),
        inl (
          ground arith,
          record {
            counted = omega (arith, c.counted, length-append o.sndbuf out);
            fits = omega (
              arith,
              size,
              length-padded src,
              c.fits,
              ltb_false→le tcp_buffer_size (o.snddata + length src + 7) room,
            );
            decrypted =
                each_block-append (decrypt_block tbl) o.sndbuf out (all_padded packets) c.decrypted
                ∙ (rw back (ap some (sym (all_padded-append packets src))));
          },
          refl,
        ),
      )
    ]
