-- ===== src/Codec/Rc4/Stream.antt =====
-- `rc4` is its own inverse, and keeps the key well formed.
use tethealla.Base.{
  ℕ, zero, suc, ◌+◌, ◌%◌, ◌≤◌, ◌<◌, ◌≡◌, ◌≢◌, refl, sym, ap₂, List, [], ◌∷◌, bit_xor, arith, length,
  get_or, set, length-set, get_or-set_self, get_or-set_ne, ap, ◌∙◌,
}
use tethealla.Base.Bits.{
  Bytes, xor_twice, xor_twice_left, xor_twice_first, bit_xor-lt, bit_xor_self,
}
use tethealla.Codec.Rc4.{
  Rc4Key, xor_at, xor_swap, initial_state, schedule, prepare_key, next_byte, rc4,
}

-- A key holds 256 bytes.
pub record IsKey (key : Rc4Key) : Type 0 where
  pub size : length key.state ≡ 256
  pub bytes : Bytes key.state

get_or-Bytes : (xs : List ℕ) (i : ℕ) → Bytes xs → get_or xs i 0 < 256
get_or-Bytes [] i h = omega arith
get_or-Bytes (x ∷ xs) zero h = h.0
get_or-Bytes (x ∷ xs) (suc i) h = get_or-Bytes xs i h.1

set-Bytes : (xs : List ℕ) (i v : ℕ) → v < 256 → Bytes xs → Bytes (set xs i v)
set-Bytes [] i v hv h = h
set-Bytes (x ∷ xs) zero v hv h = (hv, h.1)
set-Bytes (x ∷ xs) (suc i) v hv h = (h.0, set-Bytes xs i v hv h.1)

length-xor_at : (s : List ℕ) (i j : ℕ) → length (xor_at s i j) ≡ length s
unfolding xor_at
length-xor_at s i j = length-set s i _

length-xor_swap : (s : List ℕ) (i j : ℕ) → length (xor_swap s i j) ≡ length s
unfolding xor_swap
length-xor_swap s i j = simp length-set

xor_at-Bytes : (s : List ℕ) (i j : ℕ) → Bytes s → Bytes (xor_at s i j)
unfolding xor_at
xor_at-Bytes s i j h = set-Bytes s i _ (bit_xor-lt _ _ (get_or-Bytes s i h) (get_or-Bytes s j h)) h

xor_swap-Bytes : (s : List ℕ) (i j : ℕ) → Bytes s → Bytes (xor_swap s i j)
unfolding xor_swap
xor_swap-Bytes s i j h =
    xor_at-Bytes (xor_at (xor_at s i j) j i) i j
      (xor_at-Bytes (xor_at s i j) j i (xor_at-Bytes s i j h))

next_byte-IsKey : (key : Rc4Key) → IsKey key → IsKey (next_byte key).0
unfolding next_byte
next_byte-IsKey key v = record {
  size = length-xor_swap key.state _ _ ∙ v.size;
  bytes = xor_swap-Bytes key.state _ _ v.bytes;
}

next_byte-lt : (key : Rc4Key) → IsKey key → (next_byte key).1 < 256
unfolding next_byte
next_byte-lt key v = get_or-Bytes _ _ (next_byte-IsKey key v).bytes

-- Running `rc4` on bytes again from the same key (of 256 bytes) gives the buffer back, and both runs
-- leave the same key.
pub rc4-rc4 :
    (buffer : List ℕ) (key : Rc4Key)
    → Bytes buffer
    → IsKey key
    → rc4 (rc4 buffer key).0 key ≡ (buffer, (rc4 buffer key).1)
unfolding rc4
rc4-rc4 [] key h v = refl
rc4-rc4 (b ∷ buffer) key h v =
    let ih = rc4-rc4 buffer (next_byte key).0 h.1 (next_byte-IsKey key v) in
    rw (ih, xor_twice b (next_byte key).1 h.0 (next_byte-lt key v))

-- `rc4` of bytes under a key of 256 bytes leaves bytes and such a key.
pub rc4-Bytes :
    (buffer : List ℕ) (key : Rc4Key)
    → Bytes buffer
    → IsKey key
    → Bytes (rc4 buffer key).0 × IsKey (rc4 buffer key).1
unfolding rc4
rc4-Bytes [] key h v = (tt, v)
rc4-Bytes (b ∷ buffer) key h v =
    let ih = rc4-Bytes buffer (next_byte key).0 h.1 (next_byte-IsKey key v) in
    ((bit_xor-lt b (next_byte key).1 h.0 (next_byte-lt key v), ih.0), ih.1)

pub length-rc4 : (buffer : List ℕ) (key : Rc4Key) → length (rc4 buffer key).0 ≡ length buffer
unfolding rc4
length-rc4 [] key = refl
length-rc4 (b ∷ buffer) key = ap suc (length-rc4 buffer (next_byte key).0)

initial_state-Bytes : (n counter : ℕ) → counter + n ≤ 256 → Bytes (initial_state n counter)
unfolding initial_state
initial_state-Bytes zero counter h = tt
initial_state-Bytes (suc n) counter h =
    (omega arith, initial_state-Bytes n (counter + 1) (omega arith))

length-initial_state : (n counter : ℕ) → length (initial_state n counter) ≡ n
unfolding initial_state
length-initial_state zero counter = refl
length-initial_state (suc n) counter = ap suc (length-initial_state n (counter + 1))

schedule-Bytes :
    (n counter : ℕ) (keydata : List ℕ) (index1 index2 : ℕ) (state : List ℕ)
    → Bytes state
    → Bytes (schedule n counter keydata index1 index2 state)
      × (length (schedule n counter keydata index1 index2 state) ≡ length state)
unfolding schedule
schedule-Bytes zero counter keydata index1 index2 state h = (h, refl)
schedule-Bytes (suc n) counter keydata index1 index2 state h =
    let j = (get_or keydata index1 0 + get_or state counter 0 + index2) % 256 in
    let ih =
      schedule-Bytes n (counter + 1) keydata ((index1 + 1) % length keydata) j
        (xor_swap state counter j) (xor_swap-Bytes state counter j h) in
    (ih.0, ih.1 ∙ length-xor_swap state counter j)

-- `prepare_key` makes a key of 256 bytes from any key data.
pub prepare_key-IsKey : (keydata : List ℕ) → IsKey (prepare_key keydata)
unfolding prepare_key
prepare_key-IsKey keydata =
    let made =
      schedule-Bytes 256 0 keydata 0 0 (initial_state 256 0)
        (initial_state-Bytes 256 0 (omega arith)) in
    record { size = made.1 ∙ length-initial_state 256 0; bytes = made.0 }

get_or-xor_at_self :
    (s : List ℕ) (i j : ℕ)
    → i < length s
    → get_or (xor_at s i j) i 0 ≡ bit_xor (get_or s i 0) (get_or s j 0)
unfolding xor_at
get_or-xor_at_self s i j h = get_or-set_self s i _ 0 h

get_or-xor_at_ne : (s : List ℕ) (i j k : ℕ) → i ≢ k → get_or (xor_at s i j) k 0 ≡ get_or s k 0
unfolding xor_at
get_or-xor_at_ne s i j k h = get_or-set_ne s i k _ 0 h

module _ (s : List ℕ) (i j : ℕ) (h : Bytes s) (hi : i < length s) (hj : j < length s) where
  swap_first : i ≢ j → get_or (xor_at (xor_at s i j) j i) j 0 ≡ get_or s i 0
  swap_first ne =
      rw
        (
          get_or-xor_at_self (xor_at s i j) j i (omega (arith, length-xor_at s i j)),
          get_or-xor_at_ne s i j j ne,
          get_or-xor_at_self s i j hi,
        )
        (xor_twice_left _ _ (get_or-Bytes s i h) (get_or-Bytes s j h))

  swap_second :
      i ≢ j → get_or (xor_at (xor_at s i j) j i) i 0 ≡ bit_xor (get_or s i 0) (get_or s j 0)
  swap_second ne =
      rw (get_or-xor_at_ne (xor_at s i j) j i i (λ e. ne (sym e)), get_or-xor_at_self s i j hi)

  xor_swap_ne :
      i ≢ j
      → (get_or (xor_swap s i j) i 0 ≡ get_or s j 0) × (get_or (xor_swap s i j) j 0 ≡ get_or s i 0)
  unfolding xor_swap
  xor_swap_ne ne =
      let s₂ = xor_at (xor_at s i j) j i in
      (
        get_or-xor_at_self s₂ i j
              (omega (arith, length-xor_at s i j, length-xor_at (xor_at s i j) j i))
            ∙ (ap₂ bit_xor (swap_second ne) (swap_first ne)
                ∙ xor_twice_first _ _ (get_or-Bytes s i h) (get_or-Bytes s j h)),
        get_or-xor_at_ne s₂ i j j ne ∙ swap_first ne,
      )

xor_at_zero : (s : List ℕ) (i : ℕ) → Bytes s → i < length s → get_or (xor_at s i i) i 0 ≡ 0
xor_at_zero s i h hi = get_or-xor_at_self s i i hi ∙ bit_xor_self _ (get_or-Bytes s i h)

xor_swap_zero : (s : List ℕ) (i : ℕ) → Bytes s → i < length s → get_or (xor_swap s i i) i 0 ≡ 0
unfolding xor_swap
xor_swap_zero s i h hi =
    let s₁ = xor_at s i i in
    let s₂ = xor_at s₁ i i in
    xor_at_zero s₂ i (xor_at-Bytes s₁ i i (xor_at-Bytes s i i h))
      (omega (arith, length-xor_at s i i, length-xor_at s₁ i i))

-- The swap by three `^=` exchanges the bytes of two different places of a state of bytes.
pub xor_swap_lem :
    (s : List ℕ) (i j : ℕ)
    → Bytes s
    → i < length s
    → j < length s
    → i ≢ j
    → (get_or (xor_swap s i j) i 0 ≡ get_or s j 0) × (get_or (xor_swap s i j) j 0 ≡ get_or s i 0)
xor_swap_lem s i j h hi hj ne = xor_swap_ne s i j h hi hj ne

-- The swap by three `^=` of a place of a state of bytes with itself sets its byte to 0, whatever it
-- was.
pub xor_swap_self : (s : List ℕ) (i : ℕ) → Bytes s → i < length s → get_or (xor_swap s i i) i 0 ≡ 0
xor_swap_self s i h hi = xor_swap_zero s i h hi
