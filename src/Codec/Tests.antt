-- ===== src/Codec/Tests.antt =====
-- The link's theorems at concrete packets, and runs of the functions.
use tethealla.Base.{ℕ, ◌≡◌, refl, List, [], ◌∷◌, ◌++◌, some, true, arith}
use tethealla.Codec.Rle.{rle_encode, rle_decode}
use tethealla.Codec.Rle.RoundTrip.{rle_decode-encode, rle_encode-Bytes}
use tethealla.Codec.Rc4.{Rc4Key, prepare_key}
use tethealla.Codec.Rc4.Stream.{prepare_key-IsKey}
use tethealla.Codec.ShipPacket.{Orange, queued, le32, compress_ship_packet, decompress_ship_packet}
use tethealla.Codec.ShipPacket.Link.{decompress-compress_ship_packet}

abbrev message : List ℕ
message = 7 ∷ 7 ∷ 7 ∷ 7 ∷ 1 ∷ 2 ∷ 2 ∷ []

abbrev login_key : Rc4Key
login_key = prepare_key (1 ∷ 2 ∷ 3 ∷ [])

abbrev ship : Orange
ship = record {
  sock_open = true;
  sndbuf = 9 ∷ [];
  crypt_on = true;
  cs_key = login_key;
  sc_key = login_key;
}

encode_message : rle_encode message ≡ some (7 ∷ 7 ∷ 2 ∷ 0 ∷ 1 ∷ 2 ∷ 2 ∷ 0 ∷ 0 ∷ [])
unfolding rle_encode
encode_message = refl

decode_message : rle_decode (7 ∷ 7 ∷ 2 ∷ 0 ∷ 1 ∷ 2 ∷ 2 ∷ 0 ∷ 0 ∷ []) ≡ some message
unfolding rle_decode
decode_message = refl

rle_decode-encode_example :
    (out : List ℕ) × (rle_encode message ≡ some out) × (rle_decode out ≡ some message)
rle_decode-encode_example = rle_decode-encode message (omega arith)

decompress-compress_ship_packet_example :
    (a' : Orange) × (packet : List ℕ) × (compress_ship_packet ship message ≡ some (queued a'))
    × (a'.sndbuf ≡ (9 ∷ []) ++ packet)
    × (decompress_ship_packet ship packet
        ≡ some (le32 11 ++ message, record ship { cs_key = a'.sc_key }))
decompress-compress_ship_packet_example =
    decompress-compress_ship_packet ship ship message refl (omega arith)
      (λ out e.
        let bound = (rle_encode-Bytes message out (omega arith) (omega arith) e).1 in omega arith)
      (omega arith) (omega arith) (prepare_key-IsKey (1 ∷ 2 ∷ 3 ∷ [])) refl refl
