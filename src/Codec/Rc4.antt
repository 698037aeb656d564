-- ===== src/Codec/Rc4.antt =====
-- `struct rc4_key`, `prepare_key` and `rc4` of ship_server.c. A key's state is a list of 256 bytes.
pub mod Stream
use tethealla.Base.{ℕ, zero, suc, ◌+◌, ◌%◌, List, [], ◌∷◌, bit_xor, length, get_or, set}

-- `struct rc4_key`
pub record Rc4Key : Type 0 where
  pub state : List ℕ
  pub x : ℕ
  pub y : ℕ

-- `state[i] ^= state[j]`
pub xor_at : List ℕ → ℕ → ℕ → List ℕ
xor_at s i j = set s i (bit_xor (get_or s i 0) (get_or s j 0))

-- `state[i] ^= state[j]; state[j] ^= state[i]; state[i] ^= state[j];`
pub xor_swap : List ℕ → ℕ → ℕ → List ℕ
unfolding xor_at
xor_swap s i j = xor_at (xor_at (xor_at s i j) j i) i j

-- `for (counter = 0; counter < 256; counter++) state[counter] = counter`, from `counter` on
pub initial_state : ℕ → ℕ → List ℕ
initial_state zero counter = []
initial_state (suc n) counter = counter ∷ initial_state n (counter + 1)

-- The second loop of `prepare_key`, with the rounds left.
pub schedule : ℕ → ℕ → List ℕ → ℕ → ℕ → List ℕ → List ℕ
schedule zero counter keydata index1 index2 state = state
schedule (suc n) counter keydata index1 index2 state =
    let j = (get_or keydata index1 0 + get_or state counter 0 + index2) % 256 in
    schedule n (counter + 1) keydata ((index1 + 1) % length keydata) j (xor_swap state counter j)

pub prepare_key : List ℕ → Rc4Key
prepare_key keydata = record {
  state = schedule 256 0 keydata 0 0 (initial_state 256 0);
  x = 0;
  y = 0;
}

-- One round of `rc4`: the key that follows, and the byte of the key stream.
pub next_byte : Rc4Key → Rc4Key × ℕ
next_byte key =
    let x = (key.x + 1) % 256 in
    let y = (get_or key.state x 0 + key.y) % 256 in
    let state = xor_swap key.state x y in
    (
      record { state = state; x = x; y = y },
      get_or state ((get_or state y 0 + get_or state x 0) % 256) 0,
    )

-- `rc4`: the buffer and the key that it leaves.
pub rc4 : List ℕ → Rc4Key → List ℕ × Rc4Key
rc4 [] key = ([], key)
rc4 (b ∷ buffer) key =
    let (key', k) = next_byte key in let (out, last) = rc4 buffer key' in (bit_xor b k ∷ out, last)
