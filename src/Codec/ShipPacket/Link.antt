-- ===== src/Codec/ShipPacket/Link.antt =====
-- A packet that one side queues is the packet that the other side reads.
use mathlib.Core.Option
use tethealla.Base.{
  ℕ, ◌+◌, ◌-◌, ◌*◌, ◌%◌, ◌^◌, ◌≤◌, ◌<◌, ◌≡◌, refl, sym, subst, ◌∙◌, List, ◌++◌, Bool, some, true,
  false, if◌then◌else◌, arith, length, take_all, drop, le→ltb,
}
use tethealla.Base.Bits.{Bytes, append-Bytes}
use tethealla.Codec.Rle.{max_run, rle_encode, rle_decode}
use tethealla.Codec.Rle.RoundTrip.{rle_decode-encode, rle_encode-Bytes}
use tethealla.Codec.Rc4.{rc4}
use tethealla.Codec.Rc4.Stream.{IsKey, rc4-rc4, length-rc4}
use tethealla.Codec.ShipPacket.{
  Orange, queued, le32, read_u32, packet_buffer_size, compress_ship_packet, decompress_ship_packet,
  enqueue, reset, ignored,
}

abbrev sealed_size : ℕ → ℕ
sealed_size n = ((read_u32 (le32 (n + 4)) + 2 ^ 32 - 8) % 2 ^ 32 + 4) % 2 ^ 32

sealed_size_lem : (n : ℕ) → 4 ≤ n → n + 8 < 2 ^ 32 → sealed_size n ≡ n
sealed_size_lem n low high = omega arith

-- How a packet that holds `plain` under the key of the ship is opened.
open_sealed :
    (ship : Orange) (plain : List ℕ)
    → ship.crypt_on ≡ true
    → IsKey ship.cs_key
    → Bytes plain
    → 4 ≤ length plain
    → length plain + 8 < 2 ^ 32
    → let (sealed, key) = rc4 plain ship.cs_key in
      decompress_ship_packet ship (le32 (length sealed + 4) ++ sealed)
      ≡ Option.map
          (λ out. (le32 ((read_u32 plain + 4) % 2 ^ 32) ++ out, record ship { cs_key = key }))
          (rle_decode (drop 4 plain))
unfolding decompress_ship_packet
open_sealed ship plain on v b low high =
    let sealed = (rc4 plain ship.cs_key).0 in
    let size : length sealed ≡ length plain = length-rc4 plain ship.cs_key in
    rw (
      on,
      take_all (sealed_size (length sealed)) sealed (
          omega
            (arith, sealed_size_lem (length sealed) (omega (arith, size)) (omega (arith, size)))),
      rc4-rc4 plain ship.cs_key b v,
    )

sized : (n : ℕ) (out : List ℕ) → n < 2 ^ 30 → (read_u32 (le32 n ++ out) + 4) % 2 ^ 32 ≡ n + 4
sized n out h = omega arith

open_packed :
    (ship : Orange) (src out : List ℕ)
    → ship.crypt_on ≡ true
    → IsKey ship.cs_key
    → length src ≤ max_run + 1
    → Bytes out
    → length out ≤ 3 * length src
    → rle_decode out ≡ some src
    → let (sealed, key) = rc4 (le32 (length src) ++ out) ship.cs_key in
      decompress_ship_packet ship (le32 (length sealed + 4) ++ sealed)
      ≡ some (le32 (length src + 4) ++ src, record ship { cs_key = key })
open_packed ship src out on v small b bound decoded =
    open_sealed ship (le32 (length src) ++ out) on v
      (append-Bytes (le32 (length src)) out (omega arith) b) (omega arith) (omega arith)
    ∙ rw (decoded, sized (length src) out (omega arith))

both_tests {ℓ} :
    {A : Type ℓ} (p q : Bool) (x y z : A)
    → p ≡ true
    → q ≡ false
    → (if p then (if q then x else y) else z) ≡ y
both_tests true true x y z e f = cc
both_tests true false x y z e f = refl
both_tests false q x y z e f = cc

taken :
    (a : Orange) (src : List ℕ)
    → a.sock_open ≡ true
    → length a.sndbuf + length src + 100 ≤ packet_buffer_size
    → compress_ship_packet a src ≡ enqueue a src
unfolding compress_ship_packet
taken a src up room =
    let small = le→ltb packet_buffer_size (length a.sndbuf + length src + 100) room in
    both_tests a.sock_open _ (some reset) (enqueue a src) (some ignored) up small

enqueue-fits :
    (a : Orange) (src out : List ℕ)
    → rle_encode src ≡ some out
    → length a.sndbuf + 8 + length out ≤ packet_buffer_size
    → let (sealed, key) = rc4 (le32 (length src) ++ out) a.sc_key in
      enqueue a src
      ≡ some (
          queued
            (record a { sndbuf = a.sndbuf ++ (le32 (length sealed + 4) ++ sealed); sc_key = key }))
unfolding enqueue
enqueue-fits a src out encoded fits =
    rw (enqueue, encoded, le→ltb packet_buffer_size (length a.sndbuf + 8 + length out) fits) refl

-- A packet of at most 0xFFF1 bytes that a ship with an open socket sends under a sound key, where
-- the test of its size lets it through and its encoding fits in the send buffer behind what that
-- holds, is queued there; and a peer that decrypts, with the sender's sending key as its receiving
-- key, reads it as the original size plus 4 followed by the original bytes. The peer's new key is
-- the sender's new key.
pub decompress-compress_ship_packet :
    (a b : Orange) (src : List ℕ)
    → a.sock_open ≡ true
    → length a.sndbuf + length src + 100 ≤ packet_buffer_size
    → ((out : List ℕ)
        → rle_encode src ≡ some out
        → length a.sndbuf + 8 + length out ≤ packet_buffer_size)
    → length src ≤ max_run + 1
    → Bytes src
    → IsKey a.sc_key
    → b.crypt_on ≡ true
    → b.cs_key ≡ a.sc_key
    → (a' : Orange) × (packet : List ℕ) × (compress_ship_packet a src ≡ some (queued a'))
      × (a'.sndbuf ≡ a.sndbuf ++ packet)
      × (decompress_ship_packet b packet
          ≡ some (le32 (length src + 4) ++ src, record b { cs_key = a'.sc_key }))
decompress-compress_ship_packet a b src up room fits small bytes v on keys =
    let (out, encoded, decoded) = rle_decode-encode src small in
    let (out_bytes, bound) = rle_encode-Bytes src out small bytes encoded in
    let plain = le32 (length src) ++ out in
    let (sealed, key) = rc4 plain a.sc_key in
    (
      record a { sndbuf = a.sndbuf ++ (le32 (length sealed + 4) ++ sealed); sc_key = key },
      le32 (length sealed + 4) ++ sealed,
      taken a src up room ∙ enqueue-fits a src out encoded (fits out encoded),
      refl,
      subst
          (λ k.
            let (sealed, key) = rc4 (le32 (length src) ++ out) k in
            decompress_ship_packet b (le32 (length sealed + 4) ++ sealed)
            ≡ some (le32 (length src + 4) ++ src, record b { cs_key = key }))
          keys (open_packed b src out on (subst IsKey (sym keys) v) small out_bytes bound decoded),
    )
