-- ===== src/Moderation/Banned.antt =====
-- Who is banned after `ban`, and what bandata.dat then holds.
use tethealla.Base.{
  ℕ, ◌≤◌, ◌≡◌, refl, List, [], ◌∷◌, ◌++◌, Option, none, some, arith, ltb, if◌then◌else◌, length,
  get_or, set, drop, Bool-cases, Option-cases, inl, inr,
}
use tethealla.Game.{find_index}
use tethealla.Moderation.{BanData, Bans, no_ban, is_banned, is_ban, saved_bans, ban}
use tethealla.Moderation.Gaps.{survivors}
use tethealla.Moderation.Entries.{take-set_next, closed_entries}

-- What the list holds after `ban`, by the place at which the ban was found
abbrev pub rebanned : BanData → Bans → Option ℕ → List BanData
rebanned new s place =
    let old = saved_bans s in
    elim place [
      | none ↦ if ltb s.num_bans 5000 then old ++ new ∷ [] else old
      | some ch ↦
          let entry = get_or s.ship_bandata ch no_ban in
          survivors is_ban (drop 1 (set old ch (record entry { guildcard = 0; ban_type = 0 })))
    ]

-- What is saved: the list that is left, unless a ban finds the list full
abbrev pub written : Bans → Bans → Option ℕ → Option (List BanData)
written s s' place = elim place [
  | none ↦ if ltb s.num_bans 5000 then some (saved_bans s') else none
  | some ch ↦ some (saved_bans s')
]

-- A ban that is not there is added at the end, unless 5000 are, and then nothing changes and nothing
-- is saved. A ban that is there is lifted, and with it the ban in the first place and every entry
-- that is none; what is left is saved.
pub ban-rebanned :
    (gc_num ipaddr hwinfo ban_type : ℕ) (s : Bans)
    → s.num_bans ≤ 5000
    → length s.ship_bandata ≡ 5000
    → let place = find_index (is_banned gc_num ban_type) s.num_bans s.ship_bandata in
      let new : BanData = record {
        guildcard = gc_num;
        ban_type = ban_type;
        ipaddr = ipaddr;
        hwinfo = hwinfo;
      } in
      let (s', banned, file) = ban gc_num ipaddr hwinfo ban_type s in
      (saved_bans s' ≡ rebanned new s place) × (file ≡ written s s' place)
unfolding ban
ban-rebanned gc_num ipaddr hwinfo ban_type s count size =
    elim (Option-cases (find_index (is_banned gc_num ban_type) s.num_bans s.ship_bandata)) [
      | inl absent ↦ elim (Bool-cases (ltb s.num_bans 5000)) [
        | inl room ↦
            let new : BanData = record {
              guildcard = gc_num;
              ban_type = ban_type;
              ipaddr = ipaddr;
              hwinfo = hwinfo;
            } in
            rw (ban, absent, room)
              (take-set_next s.num_bans s.ship_bandata new (ground arith), refl)
        | inr full ↦ rw (ban, absent, full) (refl, refl)
      ]
      | inr (ch, found) ↦
          let entry = get_or s.ship_bandata ch no_ban in
          rw (ban, found)
            (
              closed_entries is_ban no_ban s.num_bans s.ship_bandata ch
                  (record entry { guildcard = 0; ban_type = 0 }) (omega arith),
              refl,
            )
    ]
