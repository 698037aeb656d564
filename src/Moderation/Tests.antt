-- ===== src/Moderation/Tests.antt =====
-- The theorems on the lists of a ship at small lists, and runs of the functions.
use tethealla.Base.{
  ℕ, ◌+◌, ◌≡◌, refl, ap, [], ◌∷◌, true, false, arith, length, replicate, some, set, drop,
  length-replicate,
}
use tethealla.Game.{find_index}
use tethealla.Moderation.{
  close_up, Ignores, stfu, toggle_stfu, BanData, Bans, no_ban, is_banned, saved_bans, ban, Cards,
  no_card, is_card, card_place, prep_guild_card, prepped_guild_card,
}
use tethealla.Moderation.Ignored.{ignored, has, toggle_stfu-frees_first}
use tethealla.Moderation.Banned.{rebanned, written, ban-rebanned}
use tethealla.Moderation.Posted.{held_cards, has_sender, prepped_guild_card-prep}
use tethealla.Moderation.Gaps.{survivors}

-- Three players are ignored.
abbrev three : Ignores
three = record { ship_ignore_list = 11 ∷ 12 ∷ 13 ∷ replicate 297 0; ship_ignore_count = 3 }

three_size : length three.ship_ignore_list ≡ 300
three_size = ap (λ n. 3 + n) (length-replicate {A = ℕ} 297 0)

-- The second goes, and the first with it.
frees_both : ignored (toggle_stfu 12 three).0 ≡ 13 ∷ []
unfolding toggle_stfu close_up find_index
frees_both = refl

toggle_stfu-frees_first_example :
    (stfu 11 three ≡ true) × (stfu 11 (toggle_stfu 12 three).0 ≡ false)
unfolding find_index has
toggle_stfu-frees_first_example =
    toggle_stfu-frees_first 12 11 (12 ∷ 13 ∷ []) 0 three (omega arith) three_size refl refl
      (λ e. omega (arith, e)) refl

abbrev two_bans : Bans
two_bans = record {
  ship_bandata =
      record { guildcard = 21; ban_type = 1; ipaddr = 0; hwinfo = 0 }
      ∷ record { guildcard = 22; ban_type = 1; ipaddr = 0; hwinfo = 0 }
      ∷ replicate 4998 no_ban;
  num_bans = 2;
}

ban-rebanned_example :
    let place = find_index (is_banned 22 1) 2 two_bans.ship_bandata in
    let new : BanData = record { guildcard = 22; ban_type = 1; ipaddr = 7; hwinfo = 8 } in
    let (s', banned, file) = ban 22 7 8 1 two_bans in
    (saved_bans s' ≡ rebanned new two_bans place) × (file ≡ written two_bans s' place)
ban-rebanned_example =
    ban-rebanned 22 7 8 1 two_bans (omega arith) (ap (λ n. 2 + n) (length-replicate 4998 no_ban))

-- To lift the second ban lifts both.
lifts_both : saved_bans (ban 22 7 8 1 two_bans).0 ≡ []
unfolding ban close_up find_index
lifts_both = refl

-- A card is on its way from 51 to 52, and then one from 42 to 43.
abbrev one_card : Cards
one_card = record {
  ship_gcsend_list = record { from = 51; to = 52; time = 900 } ∷ replicate 1999 no_card;
  ship_gcsend_count = 1;
}

prepped_guild_card-prep_example :
    let sent = prep_guild_card 42 43 1000 one_card in
    let (s', accepted) = prepped_guild_card 42 43 sent in
    (accepted ≡ true)
    × (k : ℕ) × (find_index (is_card 42 43) sent.ship_gcsend_count sent.ship_gcsend_list ≡ some k)
    × (held_cards s' ≡ survivors has_sender (drop 1 (set (held_cards sent) k no_card)))
prepped_guild_card-prep_example =
    prepped_guild_card-prep 42 43 1000 one_card (omega arith)
      (ap (λ n. 1 + n) (length-replicate 1999 no_card))

-- To accept the second card loses the first.
loses_card :
    let sent = prep_guild_card 42 43 1000 one_card in
    held_cards (prepped_guild_card 42 43 sent).0 ≡ []
unfolding prep_guild_card prepped_guild_card card_place find_index close_up
loses_card = refl
