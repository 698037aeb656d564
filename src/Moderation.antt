-- ===== src/Moderation.antt =====
-- The lists that a ship keeps of players in ship_server.c: the ignored ones (`stfu`, `toggle_stfu`),
-- the banned ones (`ban`), and the guild cards that are on their way (`PrepGuildCard`,
-- `PreppedGuildCard`). An array with its count is a list of its size with the count.
pub mod Gaps
pub mod Entries
pub mod Ignored
pub mod Banned
pub mod Posted
mod Tests
use Prim.Native.String.{String}
use tethealla.Base.{
  ℕ, zero, suc, ◌+◌, List, [], ◌∷◌, Bool, true, false, not, ◌&&◌, Option, none, some, ltb, ◌==◌,
  if◌then◌else◌, length, get_or, set, take,
}
use tethealla.Game.{find_index}

-- The loops that close the gaps: with the rounds left, `ch` reads and `ch2` writes.
unfoldable pub close_up {ℓ} : {A : Type ℓ} → (A → Bool) → A → ℕ → ℕ → ℕ → List A → List A × ℕ
close_up live d zero ch ch2 xs = (xs, ch2)
close_up live d (suc n) ch ch2 xs =
    let x = get_or xs ch d in
    let moved = live x && not (ch == ch2) in
    close_up live d n (ch + 1) (if moved then ch2 + 1 else ch2) (if moved then set xs ch2 x else xs)

-- `ship_ignore_list` and `ship_ignore_count`
pub record Ignores : Type 0 where
  pub ship_ignore_list : List ℕ
  pub ship_ignore_count : ℕ

abbrev pub is_player : ℕ → ℕ → Bool
is_player gc_num entry = entry == gc_num

-- `stfu`
unfoldable pub stfu : ℕ → Ignores → Bool
stfu gc_num s = elim (find_index (is_player gc_num) s.ship_ignore_count s.ship_ignore_list) [
  | none ↦ false
  | some ch ↦ true
]

-- `toggle_stfu`: the list, whether the player is now ignored, and what the client is told
unfoldable pub toggle_stfu : ℕ → Ignores → Ignores × Bool × Option String
toggle_stfu gc_num s =
    let count = s.ship_ignore_count in
    elim (find_index (is_player gc_num) count s.ship_ignore_list) [
      | none ↦
          if ltb count 300
          then (
            record {
              ship_ignore_list = set s.ship_ignore_list count gc_num;
              ship_ignore_count = count + 1;
            },
            true,
            none,
          )
          else (s, false, some "Ship ignore list is full.")
      | some ch ↦
          let (closed, ch2) =
            close_up (λ (entry : ℕ). not (entry == 0)) 0 count 0 0 (set s.ship_ignore_list ch 0) in
          (record { ship_ignore_list = closed; ship_ignore_count = ch2 }, false, none)
    ]

-- `BANDATA`
pub record BanData : Type 0 where
  pub guildcard : ℕ
  pub ban_type : ℕ
  pub ipaddr : ℕ
  pub hwinfo : ℕ

-- `ship_bandata` and `num_bans`
pub record Bans : Type 0 where
  pub ship_bandata : List BanData
  pub num_bans : ℕ

abbrev pub no_ban : BanData
no_ban = record { guildcard = 0; ban_type = 0; ipaddr = 0; hwinfo = 0 }

abbrev pub is_banned : ℕ → ℕ → BanData → Bool
is_banned gc_num ban_type entry = entry.guildcard == gc_num && entry.ban_type == ban_type

abbrev pub is_ban : BanData → Bool
is_ban entry = not (entry.ban_type == 0)

-- `fwrite (&ship_bandata[0], 1, sizeof (BANDATA) * num_bans, fp)`
abbrev pub saved_bans : Bans → List BanData
saved_bans s = take s.num_bans s.ship_bandata

-- `ban`: the list, whether the player is now banned, and what goes to bandata.dat, if anything. That
-- the file cannot be opened, and the message where the list is full, are left out.
unfoldable pub ban : ℕ → ℕ → ℕ → ℕ → Bans → Bans × Bool × Option (List BanData)
ban gc_num ipaddr hwinfo ban_type s =
    let n = s.num_bans in
    elim (find_index (is_banned gc_num ban_type) n s.ship_bandata) [
      | none ↦
          let new : BanData = record {
            guildcard = gc_num;
            ban_type = ban_type;
            ipaddr = ipaddr;
            hwinfo = hwinfo;
          } in
          let s' : Bans = record { ship_bandata = set s.ship_bandata n new; num_bans = n + 1 } in
          if ltb n 5000 then (s', true, some (saved_bans s')) else (s, false, none)
      | some ch ↦
          let entry = get_or s.ship_bandata ch no_ban in
          let cleared = set s.ship_bandata ch (record entry { guildcard = 0; ban_type = 0 }) in
          let (closed, ch2) = close_up is_ban no_ban n 0 0 cleared in
          let s' : Bans = record { ship_bandata = closed; num_bans = ch2 } in
          (s', false, some (saved_bans s'))
    ]

-- Three numbers of `ship_gcsend_list`: who sends, who receives, and when
pub record Card : Type 0 where
  pub from : ℕ
  pub to : ℕ
  pub time : ℕ

-- `ship_gcsend_list` and `ship_gcsend_count`
pub record Cards : Type 0 where
  pub ship_gcsend_list : List Card
  pub ship_gcsend_count : ℕ

-- `MAX_GCSEND`
abbrev pub max_gcsend : ℕ
max_gcsend = 2000

abbrev pub no_card : Card
no_card = record { from = 0; to = 0; time = 0 }

abbrev pub is_card : ℕ → ℕ → Card → Bool
is_card from to card = card.from == from && card.to == to

-- The loop that finds the oldest card, with the rounds left
unfoldable pub oldest_card : ℕ → ℕ → ℕ → ℕ → List Card → ℕ
oldest_card zero ch hightime highidx cards = highidx
oldest_card (suc n) ch hightime highidx cards =
    let time = (get_or cards ch no_card).time in
    let older = ltb time hightime in
    oldest_card n (ch + 1) (if older then time else hightime) (if older then ch else highidx) cards

-- `highidx` and the count that `PrepGuildCard` comes to. A card that is there leaves `highidx` at 0.
unfoldable pub card_place : ℕ → ℕ → Cards → ℕ × ℕ
card_place from to s =
    let count = s.ship_gcsend_count in
    if ltb count max_gcsend
    then elim (find_index (is_card from to) count s.ship_gcsend_list) [
      | none ↦ (count, count + 1)
      | some ch ↦ (0, count)
    ]
    else (oldest_card max_gcsend 0 0xffff_ffff 0 s.ship_gcsend_list, count)

-- `PrepGuildCard`, at the time `servertime`
unfoldable pub prep_guild_card : ℕ → ℕ → ℕ → Cards → Cards
prep_guild_card from to servertime s =
    let (highidx, count) = card_place from to s in
    record {
      ship_gcsend_list =
          set s.ship_gcsend_list highidx (record { from = from; to = to; time = servertime });
      ship_gcsend_count = count;
    }

-- `PreppedGuildCard`
unfoldable pub prepped_guild_card : ℕ → ℕ → Cards → Cards × Bool
prepped_guild_card from to s =
    let count = s.ship_gcsend_count in
    elim (find_index (is_card from to) count s.ship_gcsend_list) [
      | none ↦ (s, false)
      | some ch ↦
          let (closed, ch2) =
            close_up (λ card. not (card.from == 0)) no_card count 0 0
              (set s.ship_gcsend_list ch no_card) in
          (record { ship_gcsend_list = closed; ship_gcsend_count = ch2 }, true)
    ]
