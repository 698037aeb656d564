-- ===== src/Codec/Rle/RoundTrip.antt =====
-- `RleDecode` undoes `RleEncode`.
use mathlib.Core.Option
use native.Mathlib.Nat.{zero-add}
use tethealla.Base.{
  ℕ, zero, suc, ◌+◌, ◌-◌, ◌*◌, ◌/◌, ◌%◌, ◌≤◌, ◌≡◌, refl, subst, ap, ap₂, ◌∙◌, ◌⊎◌, inl, inr, List,
  [], ◌∷◌, ◌++◌, Option, some, false, arith, ◌==◌, length, replicate, Bool-cases, lt→ltb, ==_iff,
  ==_refl, length-append,
}
use tethealla.Base.Bits.{Bytes, append-Bytes, Bytes-append_right}
use tethealla.Codec.Rle.{
  RunEnd, head_or, le16, max_run, encode_run, encode_loop, rle_encode, decode_loop, rle_decode,
}

-- What the inner loop has done: it took n bytes equal to `prev_char`, and wrote their number.
record Counted (prev_char count : ℕ) (src : List ℕ) (r : RunEnd) : Type 0 where
  taken : ℕ
  split : src ≡ replicate taken prev_char ++ r.rest
  written : r.written ≡ le16 (count + taken)
  small : count + taken ≤ max_run
  shorter : length r.rest ≤ length src
  prev : (r.rest ≡ []) ⊎ (r.prev_char ≡ 0xff - head_or r.rest 0)

one_more :
    {p n x : ℕ} {xs : List ℕ} {r : RunEnd} → x ≡ p → Counted p (n + 1) xs r → Counted p n (x ∷ xs) r
one_more {p} {n} {x} {xs} {r} e c = record {
  taken = suc c.taken;
  split = ap₂ ◌∷◌ e c.split;
  written = c.written ∙ ap le16 (omega arith);
  small = omega arith;
  shorter = omega arith;
  prev = c.prev;
}

encode_run-Counted :
    (prev_char count x : ℕ) (xs : List ℕ)
    → count + length (x ∷ xs) ≤ max_run
    → Counted prev_char count (x ∷ xs) (encode_run prev_char count (x ∷ xs))
unfolding encode_run
encode_run-Counted p n x [] h = elim (Bool-cases (x == p)) [
  | inl e ↦
      rw (lt→ltb n max_run (omega arith), e)
        (record {
          taken = 1;
          split = ap (λ (c : ℕ). c ∷ []) ((==_iff x p).0 e);
          written = refl;
          small = omega arith;
          shorter = omega arith;
          prev = inl refl;
        })
  | inr e ↦
      rw (lt→ltb n max_run (omega arith), e)
        (record {
          taken = 0;
          split = refl;
          written = ap le16 (omega arith);
          small = omega arith;
          shorter = omega arith;
          prev = inr refl;
        })
]
encode_run-Counted p n x (y ∷ ys) h = elim (Bool-cases (x == p)) [
  | inl e ↦
      rw (lt→ltb n max_run (omega arith), e)
        (one_more ((==_iff x p).0 e) (encode_run-Counted p (n + 1) y ys (omega arith)))
  | inr e ↦
      rw (lt→ltb n max_run (omega arith), e)
        (record {
          taken = 0;
          split = refl;
          written = ap le16 (omega arith);
          small = omega arith;
          shorter = omega arith;
          prev = inr refl;
        })
]

-- The bytes that the encoder writes for `src` decode to it, and begin as it does.
record Decodes (prev : ℕ) (src : List ℕ) (result : Option (List ℕ)) : Type 0 where
  out : List ℕ
  encoded : result ≡ some out
  heads : head_or out 0 ≡ head_or src 0
  ends : src ≡ [] → out ≡ []
  bytes : Bytes src → Bytes out
  bounded : length out ≤ 3 * length src
  decodes : (fuel : ℕ) → length out ≤ fuel → decode_loop fuel prev out ≡ some src

Decodes-nil : (prev : ℕ) → Decodes prev [] (some [])
unfolding decode_loop
Decodes-nil prev = record {
  out = [];
  encoded = refl;
  heads = refl;
  ends = λ e. refl;
  bytes = λ b. b;
  bounded = omega arith;
  decodes = λ fuel h. refl;
}

decode_copied :
    (fuel prev c : ℕ) (cs s : List ℕ)
    → (c == prev) ≡ false
    → decode_loop fuel c cs ≡ some s
    → decode_loop (suc fuel) prev (c ∷ cs) ≡ some (c ∷ s)
unfolding decode_loop
decode_copied fuel prev c cs s e h = ground arith

decode_counted :
    (fuel c lo hi : ℕ) (o s : List ℕ)
    → decode_loop fuel (0xff - head_or o 0) o ≡ some s
    → decode_loop (suc fuel) c (c ∷ lo ∷ hi ∷ o) ≡ some (c ∷ (replicate (lo + 256 * hi) c ++ s))
unfolding decode_loop
decode_counted fuel c lo hi o s h = ground (arith, ==_refl c)

-- A byte that differs from the one before is copied.
copied :
    (prev c : ℕ) (cs : List ℕ) (result : Option (List ℕ))
    → (c == prev) ≡ false
    → Decodes c cs result
    → Decodes prev (c ∷ cs) (Option.map (λ o. c ∷ o) result)
copied prev c cs result e d = record {
  out = c ∷ d.out;
  encoded = rw d.encoded;
  heads = refl;
  ends = λ nil. cc;
  bytes = λ b. (b.0, d.bytes b.1);
  bounded = omega (arith, d.bounded);
  decodes = fuelled;
}
  where
    fuelled :
        (fuel : ℕ) → length (c ∷ d.out) ≤ fuel → decode_loop fuel prev (c ∷ d.out) ≡ some (c ∷ cs)
    fuelled zero h = absurd (omega arith)
    fuelled (suc fuel) h = decode_copied fuel prev c d.out cs e (d.decodes fuel (omega arith))

u16_parts : (n : ℕ) → n ≤ max_run → n % 256 + 256 * (n / 256 % 256) ≡ n
u16_parts n h = omega arith

decode_rest :
    (rest : List ℕ) (prev fuel : ℕ) (result : Option (List ℕ))
    → (rest ≡ []) ⊎ (prev ≡ 0xff - head_or rest 0)
    → (d : Decodes prev rest result) → length d.out ≤ fuel
    → decode_loop fuel (0xff - head_or d.out 0) d.out ≡ some rest
unfolding decode_loop
decode_rest rest prev fuel result (inl e) d h = rw (d.ends e, e)
decode_rest rest prev fuel result (inr e) d h =
    let same : 0xff - head_or d.out 0 ≡ prev = omega (arith, d.heads) in rw same (d.decodes fuel h)

-- A byte that repeats the one before is followed by the number of its further repetitions.
counted :
    (c n : ℕ) (rest : List ℕ) (prev' : ℕ) (result : Option (List ℕ))
    → n ≤ max_run
    → (rest ≡ []) ⊎ (prev' ≡ 0xff - head_or rest 0)
    → Decodes prev' rest result
    → Decodes c (c ∷ (replicate n c ++ rest)) (Option.map (λ o. c ∷ (le16 n ++ o)) result)
counted c n rest prev' result small p d = record {
  out = c ∷ (le16 n ++ d.out);
  encoded = rw d.encoded;
  heads = refl;
  ends = λ nil. cc;
  bytes = λ b. (
    b.0,
    append-Bytes (le16 n) d.out (omega arith)
        (d.bytes (Bytes-append_right (replicate n c) rest b.1)),
  );
  bounded = omega (arith, d.bounded, length-append (replicate n c) rest);
  decodes = fuelled;
}
  where
    fuelled :
        (fuel : ℕ)
        → length (c ∷ (le16 n ++ d.out)) ≤ fuel
        → decode_loop fuel c (c ∷ (le16 n ++ d.out)) ≡ some (c ∷ (replicate n c ++ rest))
    fuelled zero h = absurd (omega arith)
    fuelled (suc fuel) h =
        subst
          (λ k.
            decode_loop (suc fuel) c (c ∷ (le16 n ++ d.out)) ≡ some (c ∷ (replicate k c ++ rest)))
          (u16_parts n small)
          (decode_counted fuel c _ _ d.out rest
            (decode_rest rest prev' fuel result p d (omega arith)))

repeated :
    (prev c : ℕ) (cs : List ℕ) (r : RunEnd) (result : Option (List ℕ))
    → c ≡ prev
    → Counted prev 0 cs r
    → Decodes r.prev_char r.rest result
    → Decodes prev (c ∷ cs) (Option.map (λ o. c ∷ (r.written ++ o)) result)
repeated prev c cs r result e k d =
    rw (e, k.split, k.written, zero-add)
      (counted prev k.taken r.rest r.prev_char result (omega (arith, k.small)) k.prev d)

encode_loop-Decodes :
    (fuel prev : ℕ) (src : List ℕ)
    → length src ≤ fuel
    → length src ≤ max_run + 1
    → Decodes prev src (encode_loop fuel prev src)
unfolding encode_loop
encode_loop-Decodes fuel prev [] f h = Decodes-nil prev
encode_loop-Decodes zero prev (c ∷ cs) f h = absurd (omega arith)
encode_loop-Decodes (suc fuel) prev (c ∷ []) f h = elim (Bool-cases (c == prev)) [
  | inl e ↦ rw e (
      subst (λ p. Decodes p (c ∷ []) (some (c ∷ 0 ∷ 0 ∷ []))) ((==_iff c prev).0 e)
        (counted c 0 [] c (some []) (omega arith) (inl refl) (Decodes-nil c)))
  | inr e ↦ rw e (copied prev c [] _ e (encode_loop-Decodes fuel c [] (omega arith) (omega arith)))
]
encode_loop-Decodes (suc fuel) prev (c ∷ d ∷ ds) f h = elim (Bool-cases (c == prev)) [
  | inl e ↦
      let k = encode_run-Counted prev 0 d ds (omega arith) in
      let r = encode_run prev 0 (d ∷ ds) in
      rw (e, encode_loop)
        (repeated prev c (d ∷ ds) r (encode_loop fuel r.prev_char r.rest) ((==_iff c prev).0 e) k (
          encode_loop-Decodes fuel r.prev_char r.rest (omega (arith, k.shorter))
            (omega (arith, k.shorter))))
  | inr e ↦
      rw (e, encode_loop)
        (copied prev c (d ∷ ds) _ e
          (encode_loop-Decodes fuel c (d ∷ ds) (omega arith) (omega arith)))
]

-- On at most 0xFFF1 bytes (the longest run that is counted, and the byte before it) `RleEncode`
-- stops and writes bytes that `RleDecode`, which stops too, turns back into the source.
pub rle_decode-encode :
    (src : List ℕ)
    → length src ≤ max_run + 1
    → (out : List ℕ) × (rle_encode src ≡ some out) × (rle_decode out ≡ some src)
unfolding rle_encode rle_decode
rle_decode-encode src h =
    let d = encode_loop-Decodes (length src) (0xff - head_or src 0) src (omega arith) h in
    (d.out, d.encoded, rw d.heads (d.decodes (length d.out) (omega arith)))

-- `RleEncode` of at most 0xFFF1 bytes writes bytes, three for each byte of the source at most.
pub rle_encode-Bytes :
    (src out : List ℕ)
    → length src ≤ max_run + 1
    → Bytes src
    → rle_encode src ≡ some out
    → Bytes out × (length out ≤ 3 * length src)
unfolding rle_encode
rle_encode-Bytes src out h b e =
    let d = encode_loop-Decodes (length src) (0xff - head_or src 0) src (omega arith) h in
    let same : d.out ≡ out = cc (d.encoded) in
    (subst Bytes same (d.bytes b), subst (λ o. length o ≤ 3 * length src) same d.bounded)
