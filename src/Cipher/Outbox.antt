-- ===== src/Cipher/Outbox.antt =====
-- `encryptcopy`, `decryptcopy` and `SendToLobby` of ship_server.c: the queue of encrypted packets
-- that waits to be sent to a client. The check of the pointer `client` is left out.
pub mod Carried
pub mod Delivered
use tethealla.Base.{
  ℕ, zero, suc, ◌+◌, ◌%◌, List, [], ◌∷◌, ◌++◌, Bool, true, false, not, ◌&&◌, Option, none, some,
  ltb, ◌==◌, if◌then◌else◌, length,
}
use tethealla.Cipher.Words.{pso_crypt_encrypt_bb, pso_crypt_decrypt_bb}

-- `TCP_BUFFER_SIZE`
abbrev pub tcp_buffer_size : ℕ
tcp_buffer_size = 64000

-- `snddata`, the first `snddata` bytes of `sndbuf`, and `todc`, of `BANANA`
pub record Outbox : Type 0 where
  pub sndbuf : List ℕ
  pub snddata : ℕ
  pub todc : Bool

-- `while (size % 8) dest[size++] = 0x00;`, with the rounds left
unfoldable pub pad : ℕ → List ℕ → List ℕ
pad zero dest = dest
pad (suc n) dest =
    let longer = pad n (dest ++ 0 ∷ []) in if length dest % 8 == 0 then dest else longer

-- `encryptcopy`, with the table of the cipher. `none` is an access past the data by the cipher.
-- The test `TCP_BUFFER_SIZE - snddata < size + 7` is one of signed numbers.
unfoldable pub encrypt_copy : List ℕ → List ℕ → Outbox → Option Outbox
encrypt_copy tbl src o =
    if ltb tcp_buffer_size (o.snddata + length src + 7)
    then some (record o { todc = true })
    else elim (pso_crypt_encrypt_bb tbl (pad 7 src)) [
      | none ↦ none
      | some out ↦ some (record o { sndbuf = o.sndbuf ++ out; snddata = o.snddata + length out })
    ]

-- `decryptcopy`
unfoldable pub decrypt_copy : List ℕ → List ℕ → Option (List ℕ)
decrypt_copy tbl src = pso_crypt_decrypt_bb tbl src

-- A client in a slot of the lobby: its guild card, the table of `server_cipher`, and its queue
pub record Member : Type 0 where
  pub guildcard : ℕ
  pub server_cipher : List ℕ
  pub outbox : Outbox

-- The body of the loop, at a slot that is in use and has a client
unfoldable pub send_to_member : List ℕ → ℕ → Member → Option Member
send_to_member src nosend m =
    if m.guildcard == nosend then some m else elim (encrypt_copy m.server_cipher src m.outbox) [
      | none ↦ none
      | some o ↦ some (record m { outbox = o })
    ]

-- `if ((l->slot_use[ch]) && (l->client[ch]) && ...)`: `none` is a slot that is not.
unfoldable pub send_to_slot : List ℕ → ℕ → Option Member → Option (Option Member)
send_to_slot src nosend none = some none
send_to_slot src nosend (some m) = elim (send_to_member src nosend m) [
  | none ↦ none
  | some m' ↦ some (some m')
]

-- `SendToLobby`, on the slots of the lobby, of which it looks at the first `max_send`
unfoldable pub send_to_slots : ℕ → List ℕ → ℕ → List (Option Member) → Option (List (Option Member))
send_to_slots zero src nosend slots = some slots
send_to_slots (suc n) src nosend [] = some []
send_to_slots (suc n) src nosend (s ∷ slots) = elim (send_to_slot src nosend s) [
  | none ↦ none
  | some s' ↦ elim (send_to_slots n src nosend slots) [
    | none ↦ none
    | some slots' ↦ some (s' ∷ slots')
  ]
]
