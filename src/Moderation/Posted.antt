-- ===== src/Moderation/Posted.antt =====
-- A guild card that has been sent can be accepted.
use tethealla.Base.{
  ℕ, zero, suc, ◌+◌, ◌≤◌, ◌<◌, ◌≡◌, refl, ap, ◌∙◌, List, Bool, some, not, ◌==◌, take, drop, true,
  arith, ltb, if◌then◌else◌, length, get_or, set, length-set, get_or-set_self, Bool-cases,
  Option-cases, inl, inr, ltb→lt,
}
use tethealla.Game.{find_index}
use tethealla.Game.Find.{find_index-Found}
use tethealla.Moderation.{
  Card, Cards, max_gcsend, no_card, is_card, oldest_card, card_place, prep_guild_card,
  prepped_guild_card,
}
use tethealla.Moderation.Entries.{find_index-finds, closed_entries}
use tethealla.Moderation.Gaps.{survivors}

oldest_card-lt :
    (bound n ch hightime highidx : ℕ) (cards : List Card)
    → highidx < bound
    → ch + n ≤ bound
    → oldest_card n ch hightime highidx cards < bound
unfolding oldest_card
oldest_card-lt bound zero ch hightime highidx cards h fits = h
oldest_card-lt bound (suc n) ch hightime highidx cards h fits =
    let time = (get_or cards ch no_card).time in
    let older = ltb time hightime in
    oldest_card-lt bound n (ch + 1) (if older then time else hightime)
      (if older then ch else highidx) cards (ground arith) (omega arith)

-- The place that a card is given is one that the count covers.
card_place-lt :
    (from to : ℕ) (s : Cards)
    → s.ship_gcsend_count ≤ max_gcsend
    → let (highidx, count) = card_place from to s in (highidx < count) × (count ≤ max_gcsend)
unfolding card_place
card_place-lt from to s h =
    let count = s.ship_gcsend_count in
    elim (Bool-cases (ltb count max_gcsend)) [
      | inr full ↦ rw full (
        ground (arith, oldest_card-lt max_gcsend max_gcsend 0 0xffff_ffff 0 s.ship_gcsend_list),
        h,
      )
      | inl room ↦ elim (Option-cases (find_index (is_card from to) count s.ship_gcsend_list)) [
        | inl absent ↦ rw (room, absent) (omega arith, omega (arith, ltb→lt count max_gcsend room))
        | inr (ch, found) ↦
            let place =
              find_index-Found (is_card from to) no_card count s.ship_gcsend_list ch found in
            rw (room, found) (omega (arith, place.below), h)
      ]
    ]

card_found :
    (from to time : ℕ) → is_card from to (record { from = from; to = to; time = time }) ≡ true
card_found from to time = ground arith

-- The cards that a list holds
abbrev pub held_cards : Cards → List Card
held_cards s = take s.ship_gcsend_count s.ship_gcsend_list

abbrev pub has_sender : Card → Bool
has_sender card = not (card.from == 0)

-- In a list of 2000 places, of which at most all are counted, a guild card that has just been
-- sent, with no other sent or accepted since, is found by `PreppedGuildCard`, whatever the list
-- held before. The cards held then are those with a sender behind the first entry, less the one
-- that is accepted: the first entry goes whatever it is.
pub prepped_guild_card-prep :
    (from to servertime : ℕ) (s : Cards)
    → s.ship_gcsend_count ≤ max_gcsend
    → length s.ship_gcsend_list ≡ max_gcsend
    → let sent = prep_guild_card from to servertime s in
      let (s', accepted) = prepped_guild_card from to sent in
      (accepted ≡ true)
      × (k : ℕ) × (find_index (is_card from to) sent.ship_gcsend_count sent.ship_gcsend_list
          ≡ some k)
      × (held_cards s' ≡ survivors has_sender (drop 1 (set (held_cards sent) k no_card)))
unfolding prepped_guild_card prep_guild_card
prepped_guild_card-prep from to servertime s count size =
    let (highidx, count') = card_place from to s in
    let (below, bound) = card_place-lt from to s count in
    let card : Card = record { from = from; to = to; time = servertime } in
    let cards = set s.ship_gcsend_list highidx card in
    let here = get_or-set_self s.ship_gcsend_list highidx card no_card (omega arith) in
    let many : length cards ≡ max_gcsend = length-set s.ship_gcsend_list highidx card ∙ size in
    let (k, found) =
      find_index-finds (is_card from to) no_card count' cards highidx below (omega (arith, many))
        (ap (is_card from to) here ∙ card_found from to servertime) in
    rw (prepped_guild_card, found)
      (
        refl,
        k,
        refl,
        closed_entries has_sender no_card count' cards k no_card (omega (arith, many)),
      )
