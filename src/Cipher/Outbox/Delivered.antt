-- ===== src/Cipher/Outbox/Delivered.antt =====
-- Whom a packet to the lobby reaches.
use tethealla.Base.{
  ℕ, zero, suc, ◌≡◌, ◌≢◌, ◌⊎◌, inl, inr, refl, List, [], ◌∷◌, Option, none, some, arith, ◌==◌,
  ==_iff, Bool-cases,
}
use tethealla.Base.Bits.{Bytes}
use tethealla.Cipher.Blocks.{AreWords}
use tethealla.Cipher.Outbox.{Member, send_to_member, send_to_slot, send_to_slots}
use tethealla.Cipher.Outbox.Carried.{Carries, Queued, encrypt_copy-Queued}

-- Every client of the lobby has a sound cipher, and its queue carries the packets of the log.
abbrev pub IsServed : List (List (List ℕ)) → List (Option Member) → Type 0
IsServed log [] = Unit
IsServed [] (s ∷ slots) = ⊥
IsServed (packets ∷ log) (none ∷ slots) = IsServed log slots
IsServed (packets ∷ log) (some m ∷ slots) =
    (AreWords m.server_cipher × Carries m.server_cipher packets m.outbox) × IsServed log slots

-- What happens to one client: the sender is left alone, and any other is sent the packet.
abbrev pub Reached : List (List ℕ) → List ℕ → ℕ → Member → Member → Type 0
Reached packets src nosend m m' =
    ((m.guildcard ≡ nosend) × (m' ≡ m))
    ⊎ ((m.guildcard ≢ nosend)
        × (m' ≡ record m { outbox = m'.outbox })
        × Queued m.server_cipher packets src m.outbox m'.outbox)

-- What happens to the slots: those past the limit stay, the empty ones stay empty.
pub data Delivered (src : List ℕ) (nosend : ℕ)
    : ℕ → List (List (List ℕ)) → List (Option Member) → List (Option Member) → Type 0 where
  past_limit :
      {log : List (List (List ℕ))} {slots : List (Option Member)}
      → Delivered src nosend zero log slots slots
  at_end : {n : ℕ} {log : List (List (List ℕ))} → Delivered src nosend (suc n) log [] []
  empty :
      {n : ℕ} {packets : List (List ℕ)} {log : List (List (List ℕ))}
      {slots slots' : List (Option Member)}
      → Delivered src nosend n log slots slots'
      → Delivered src nosend (suc n) (packets ∷ log) (none ∷ slots) (none ∷ slots')
  occupied :
      {n : ℕ} {packets : List (List ℕ)} {log : List (List (List ℕ))} {m m' : Member}
      {slots slots' : List (Option Member)}
      → Reached packets src nosend m m'
      → Delivered src nosend n log slots slots'
      → Delivered src nosend (suc n) (packets ∷ log) (some m ∷ slots) (some m' ∷ slots')

module _ (src : List ℕ) (nosend : ℕ) (bounded : Bytes src) where
  send_to_member-Reached :
      (packets : List (List ℕ)) (m : Member)
      → AreWords m.server_cipher
      → Carries m.server_cipher packets m.outbox
      → (m' : Member) × (send_to_member src nosend m ≡ some m') × Reached packets src nosend m m'
  unfolding send_to_member
  send_to_member-Reached packets m words c = elim (Bool-cases (m.guildcard == nosend)) [
    | inl same ↦ (m, rw same, inl ((==_iff m.guildcard nosend).0 same, refl))
    | inr other ↦
        let (o, e, queued) =
          encrypt_copy-Queued m.server_cipher src packets m.outbox words bounded c in
        (record m { outbox = o }, rw (other, e), inr (λ same. ground arith, refl, queued))
  ]

  -- A packet of bytes sent to a lobby whose clients' queues carry what the log says: no access runs
  -- over the data; of the first `n` slots each client but the one with the guild card `nosend` has
  -- the packet queued, or is to be disconnected where its buffer has no room; that one, the empty
  -- slots and the slots from `n` on are as they were.
  pub send_to_slots-Delivered :
      (n : ℕ) (log : List (List (List ℕ))) (slots : List (Option Member))
      → IsServed log slots
      → (slots' : List (Option Member)) × (send_to_slots n src nosend slots ≡ some slots')
        × Delivered src nosend n log slots slots'
  unfolding send_to_slots send_to_slot
  send_to_slots-Delivered zero log slots h = (slots, refl, past_limit)
  send_to_slots-Delivered (suc n) log [] h = ([], refl, at_end)
  send_to_slots-Delivered (suc n) [] (s ∷ slots) h = absurd h
  send_to_slots-Delivered (suc n) (packets ∷ log) (none ∷ slots) h =
      let (slots', e, d) = send_to_slots-Delivered n log slots h in (none ∷ slots', rw e, empty d)
  send_to_slots-Delivered (suc n) (packets ∷ log) (some m ∷ slots) ((words, c), h) =
      let (m', e, reached) = send_to_member-Reached packets m words c in
      let (slots', e', d) = send_to_slots-Delivered n log slots h in
      (some m' ∷ slots', rw (send_to_slots, e, e'), occupied reached d)
