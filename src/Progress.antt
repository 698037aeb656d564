-- ===== src/Progress.antt =====
-- `AddExp` and `SkipToLevel` of ship_server.c: experience and levels. The table of what each level
-- adds is read at start; it is a parameter.
pub mod Thresholds
pub mod Climb
pub mod Reached
mod Tests
use tethealla.Base.{
  ℕ, zero, suc, ◌+◌, ◌-◌, ◌*◌, ◌/◌, ◌%◌, ◌^◌, List, [], ◌∷◌, ◌++◌, Bool, true, false, ◌&&◌, ◌||◌,
  Option, none, some, ltb, leb, ◌==◌, if◌then◌else◌,
}
use tethealla.Base.Int.{ℤ, pos, ◌+ℤ◌, div_trunc, mul_int, to_unsigned}
use tethealla.Item.{InventoryItem, byte, le32, equipped}
use tethealla.Game.{Stats, Client, Room, World, send, find_index, slot}
use tethealla.Mag.{Mag}
use tethealla.Mag.Layout.{load_mag}
use tethealla.Progress.Thresholds.{tnlxp}

-- `character.ATP += ...` and so on, on `unsigned short`
abbrev pub grow_stats : Stats → Stats → Stats
grow_stats s d = record {
  atp = (s.atp + d.atp) % 65536;
  mst = (s.mst + d.mst) % 65536;
  evp = (s.evp + d.evp) % 65536;
  hp = (s.hp + d.hp) % 65536;
  dfp = (s.dfp + d.dfp) % 65536;
  ata = (s.ata + d.ata) % 65536;
}

-- `*(unsigned short *) dest = n`
abbrev pub le16 : ℕ → List ℕ
le16 n = n % 256 ∷ n / 256 % 256 ∷ []

-- `finalDFP += value`, on an `unsigned short` and an `int`
abbrev pub add_short : ℕ → ℤ → ℕ
add_short s value = to_unsigned 65536 (pos s +ℤ value)

-- What a mag that is worn adds
unfoldable pub with_mag : Mag → Stats → Stats
unfolding ◌+ℤ◌
with_mag m s = record s {
  dfp = add_short s.dfp (div_trunc m.defense 100);
  atp = add_short s.atp (mul_int (div_trunc m.power 100) 2);
  ata = add_short s.ata (div_trunc (div_trunc m.dex 100) 2);
  mst = add_short s.mst (mul_int (div_trunc m.mind 100) 2);
}

-- The loop that finds the first mag that is worn
unfoldable pub final_stats : Client → Stats
final_stats c =
    elim (find_index (λ i. byte i.item 0 == 2 && equipped i) c.inventory_use c.inventory) [
      | none ↦ c.stats
      | some ch ↦ with_mag (load_mag (slot c ch).item) c.stats
    ]

-- `PacketBF` and `Packet30`, filled in
unfoldable pub experience_packet : Client → ℕ → List ℕ
experience_packet c xp =
    (0x10 ∷ 0 ∷ 0x60 ∷ 0 ∷ 0 ∷ 0 ∷ 0 ∷ 0 ∷ 0xbf ∷ 0x04 ∷ c.client_id % 256 ∷ 0 ∷ []) ++ le32 xp

unfoldable pub level_packet : Client → List ℕ
level_packet c =
    let s = final_stats c in
    (0x1c ∷ 0 ∷ 0x60 ∷ 0 ∷ 0 ∷ 0 ∷ 0 ∷ 0 ∷ 0x30 ∷ 0x07 ∷ c.client_id % 256 ∷ 0 ∷ [])
    ++ (le16 s.atp
        ++ (le16 s.mst
            ++ (le16 s.evp
                ++ (le16 s.hp ++ (le16 s.dfp ++ (le16 s.ata ++ (le16 c.level ++ (0 ∷ 0 ∷ []))))))))

module _ (player_level_data : ℕ → ℕ → Stats) where
  -- The body of the loops: what the level adds, and the next level
  unfoldable pub level_up : Client → Client
  level_up c = record c {
    stats = grow_stats c.stats (player_level_data c.char_class c.level);
    level = (c.level + 1) % 65536;
  }

  -- `while (levelup)`, with the rounds left; `none` is a loop that has not ended.
  unfoldable pub level_loop : ℕ → Client → Option Client
  level_loop zero c = none
  level_loop (suc n) c =
      let c' = level_up c in
      let later = level_loop n c' in
      if c'.level == 199 || ltb c'.xp (tnlxp c'.level) then some c' else later

  -- `AddExp`, with a lobby
  unfoldable pub add_exp_to : ℕ → Room → Option Room
  add_exp_to xp r =
      let c = record r.client { xp = (r.client.xp + xp) % 2 ^ 32 } in
      let r₁ = send (experience_packet c xp) 0 (record r { client = c }) in
      if leb (tnlxp c.level) c.xp
      then elim (level_loop 200 c) [
        | none ↦ none
        | some c' ↦ some (send (level_packet c') 0 (record r₁ { client = c' }))
      ]
      else some r₁

  -- `AddExp`
  unfoldable pub add_exp : ℕ → World → Option World
  add_exp xp w = elim w.lobby [
    | none ↦ some w
    | some l ↦ elim (add_exp_to xp (record { client = w.client; lobby = l; sent = w.sent })) [
      | none ↦ none
      | some r ↦ some (record { client = r.client; lobby = some r.lobby; sent = r.sent })
    ]
  ]

  -- `while (level < target_level)`, with the rounds left
  unfoldable pub climb : ℕ → Client → Client
  climb zero c = c
  climb (suc n) c = climb n (level_up c)

  -- `SkipToLevel`, with a lobby
  unfoldable pub skip_to : ℕ → Bool → Room → Room
  skip_to target quiet r =
      let target_level = if ltb 199 target then 199 else target in
      let c = r.client in
      let r₁ =
        if quiet
        then r
        else send (experience_packet c ((tnlxp (target_level - 1) + 2 ^ 32 - c.xp) % 2 ^ 32)) 0 r in
      let c' = record (climb (target_level - c.level) c) { xp = tnlxp (target_level - 1) } in
      let r₂ = record r₁ { client = c' } in
      if leb target_level c.level then r else if quiet then r₂ else send (level_packet c') 0 r₂

  -- `SkipToLevel`
  unfoldable pub skip_to_level : ℕ → Bool → World → World
  skip_to_level target quiet w = elim w.lobby [
    | none ↦ w
    | some l ↦
        let r = skip_to target quiet (record { client = w.client; lobby = l; sent = w.sent }) in
        record { client = r.client; lobby = some r.lobby; sent = r.sent }
  ]
