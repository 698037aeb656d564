-- ===== src/Codec/ShipPacket.antt =====
-- `compressShipPacket` and `decompressShipPacket` of ship_server.c.
pub mod Link
use mathlib.Core.Option
use tethealla.Base.{
  ℕ, ◌+◌, ◌-◌, ◌*◌, ◌/◌, ◌%◌, ◌^◌, List, [], ◌∷◌, ◌++◌, Option, none, some, Bool, true, false, ltb,
  if◌then◌else◌, length, take, drop,
}
use tethealla.Codec.Rle.{rle_encode, rle_decode}
use tethealla.Codec.Rc4.{Rc4Key, rc4}

-- `*(unsigned *) dest = n`
abbrev pub le32 : ℕ → List ℕ
le32 n = n % 256 ∷ n / 256 % 256 ∷ n / 65536 % 256 ∷ n / 16777216 % 256 ∷ []

-- `*(unsigned *) src`, of a buffer of four bytes at least
abbrev pub read_u32 : List ℕ → ℕ
read_u32 (a ∷ b ∷ c ∷ d ∷ _) = a + 256 * b + 65536 * c + 16777216 * d
read_u32 _ = 0

abbrev pub u32 : ℕ → ℕ
u32 n = n % 2 ^ 32

-- `PACKET_BUFFER_SIZE`
abbrev pub packet_buffer_size : ℕ
packet_buffer_size = 64000 * 16

-- The fields of `ORANGE` that the two functions use. `sndbuf` holds the `snddata` bytes queued.
pub record Orange : Type 0 where
  pub sock_open : Bool  -- sockfd >= 0
  pub sndbuf : List ℕ
  pub crypt_on : Bool
  pub cs_key : Rc4Key
  pub sc_key : Rc4Key

-- What `compressShipPacket` does: nothing, a call of `initialize_logon`, or a packet queued.
pub data Sent : Type 0 where
  ignored : Sent
  reset : Sent
  queued : Orange → Sent

-- The branch that takes the packet. `none` is an access past a buffer: by the encoder, or a write
-- past the `PACKET_BUFFER_SIZE` bytes of `sndbuf`, since the encoding may be larger than its source.
unfoldable pub enqueue : Orange → List ℕ → Option Sent
enqueue ship src = elim (rle_encode src) [
  | none ↦ none
  | some packed ↦
      let (sealed, key) = rc4 (le32 (length src) ++ packed) ship.sc_key in
      if ltb packet_buffer_size (length ship.sndbuf + 8 + length packed)
      then none
      else some (
          queued (record ship {
            sndbuf = ship.sndbuf ++ (le32 (length sealed + 4) ++ sealed);
            sc_key = key;
          }))
]

unfoldable pub compress_ship_packet : Orange → List ℕ → Option Sent
unfolding enqueue
compress_ship_packet ship src =
    if ship.sock_open
    then (if ltb packet_buffer_size (length ship.sndbuf + length src + 100)
        then some reset
        else enqueue ship src)
    else some ignored

-- The bytes left in `dest`, and the ship; `src` is the packet, from its size on.
unfoldable pub decompress_ship_packet : Orange → List ℕ → Option (List ℕ × Orange)
decompress_ship_packet ship src =
    if ship.crypt_on
    then (let src_size = u32 (read_u32 src + 2 ^ 32 - 8) in
        let (plain, key) = rc4 (take (u32 (src_size + 4)) (drop 4 src)) ship.cs_key in
        Option.map (λ out. (le32 (u32 (read_u32 plain + 4)) ++ out, record ship { cs_key = key }))
          (rle_decode (drop 4 plain)))
    else (let src_size = read_u32 src in
        some (le32 (u32 (src_size + 4)) ++ take src_size (drop 4 src), ship))
