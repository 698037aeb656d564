-- ===== src/Seats/Played.antt =====
-- The course of a game: a player creates it, others join and leave, as the commands of ship_server.c
-- let them through Send64 and removeClientFromLobby.
use tethealla.Base.{
  ℕ, zero, suc, ◌+◌, ◌%◌, ◌^◌, ◌≤◌, ◌<◌, ◌≡◌, ◌≢◌, refl, sym, subst, ap, ◌∙◌, ◌⊎◌, inl, inr, Bool,
  true, false, not, some, arith, ◌==◌, Bool-cases, lt→ltb, Option-cases, replicate,
}
use mathlib.Core.Bool.{true≢false}
use tethealla.Game.{find_index}
use tethealla.Game.Find.{find_index-Found, find_index-none}
use tethealla.Seats.{
  Seat, Players, Visitor, occupied, seat, empty_seat, join_game, vacate, recounted, seat_player,
  leave_seat, count_players, no_players, GameRequest, initialize_game, remove_client_from_lobby,
  outside,
}
use tethealla.Seats.Counted.{count_players-le, count_players-free, count_players-some, seat-set}
use tethealla.Seats.Led.{
  IsSeated, IsLed, newcomer, IsSeated-set, Oldest-set, leave_seat-IsSeated, leave_seat-any,
  next_leader-Oldest,
}

-- The games that come about. A request that `initialize_game` refuses, or a client that is already
-- to be disconnected, leaves the lobby not in use, but the client still takes a seat. A full game is
-- not joined, nor one that is not in use. Who leaves need not hold the seat that it gives up: a game
-- that is not in use can be created again over the first.
pub data Played : Players → Type 0 where
  created :
      (v : Visitor) (q : GameRequest) (todc : Bool)
      → Played (join_game v (initialize_game q todc).1).1
  joined :
      (v : Visitor) (l : Players)
      → Played l
      → l.in_use ≡ true
      → l.lobby_count ≢ 4
      → l.game_player_count < 0xffff_fffe
      → Played (join_game v l).1
  left :
      (v : Visitor) (l : Players)
      → Played l
      → 0x0f < v.lobby_num
      → v.in_lobby ≡ true
      → Played (remove_client_from_lobby v l).1

-- `Send64` at a free seat
pub join_game-free :
    (v : Visitor) (l : Players) (ch : ℕ)
    → find_index (λ s. not s.slot_use) 4 l.seats ≡ some ch
    → join_game v l ≡ (record v { client_id = ch }, recounted 4 (seat_player ch v l))
unfolding join_game
join_game-free v l ch e = rw (join_game, e) refl

-- A game that is not full has a free seat.
pub free_seat :
    (l : Players)
    → IsLed l
    → l.lobby_count ≢ 4
    → (ch : ℕ) × (find_index (λ s. not s.slot_use) 4 l.seats ≡ some ch)
      × (ch < 4)
      × (occupied (seat l.seats ch) ≡ false)
free_seat l led room =
    let (j, p, empty) =
      count_players-free 4 l.seats led.seated.long
        (omega (arith, led.counted, count_players-le 4 l.seats)) in
    elim (Option-cases (find_index (λ s. not s.slot_use) 4 l.seats)) [
      | inl nowhere ↦
          let taken =
            find_index-none (λ (s : Seat). not s.slot_use) empty_seat 4 l.seats nowhere j p
              (omega (arith, led.seated.long)) in
          let agree = led.seated.agrees j p in absurd (ground arith)
      | inr (ch, e) ↦
          let f = find_index-Found (λ (s : Seat). not s.slot_use) empty_seat 4 l.seats ch e in
          let free = f.passes in (ch, e, f.below, ground arith)
    ]

pub seat_player-IsLed :
    (v : Visitor) (l : Players) (ch : ℕ)
    → IsLed l
    → l.game_player_count < 0xffff_fffe
    → occupied (seat l.seats ch) ≡ false
    → IsLed (recounted 4 (seat_player ch v l))
seat_player-IsLed v l ch led few empty =
    let next : (l.game_player_count + 1) % 2 ^ 32 ≡ suc l.game_player_count = omega arith in
    rw next (record {
      counted = refl;
      few = omega arith;
      seated = IsSeated-set l.seats l.game_player_count ch v.guildcard led.seated;
      led = Oldest-set l.seats l.game_player_count ch v.guildcard l.leader led.seated empty led.led;
    })

pub vacate-IsLed :
    (v : Visitor) (l : Players)
    → IsLed l
    → 0x0f < v.lobby_num
    → ((vacate v l).0 ≡ no_players) ⊎ IsLed (vacate v l).0
unfolding vacate
vacate-IsLed v l led game =
    elim (Bool-cases (count_players 4 (leave_seat v.client_id l.seats) == 0)) [
      | inl empty ↦ inl (rw (lt→ltb 0x0f v.lobby_num game, empty) refl)
      | inr stay ↦ inr (
          rw (lt→ltb 0x0f v.lobby_num game, stay)
            (record {
              counted = refl;
              few = led.few;
              seated = leave_seat-IsSeated l.seats v.client_id l.game_player_count led.seated;
              led =
                  next_leader-Oldest l.seats v.client_id l.leader l.game_player_count led.few
                    led.seated led.led (λ e. ground arith);
            }))
    ]

pub seat-replicate : (n j : ℕ) → seat (replicate n empty_seat) j ≡ empty_seat
seat-replicate zero j = refl
seat-replicate (suc n) zero = refl
seat-replicate (suc n) (suc j) = seat-replicate n j

no_players-IsSeated : IsSeated no_players.seats 0
no_players-IsSeated = record {
  long = omega arith;
  agrees = λ j p. rw (seat-replicate 12 j) refl;
  numbered = λ j p. rw (seat-replicate 12 j) (λ full. cc);
}

-- Who creates a game leads it.
pub created-IsLed :
    (v : Visitor) (q : GameRequest) (todc : Bool) → IsLed (join_game v (initialize_game q todc).1).1
unfolding join_game initialize_game find_index count_players
created-IsLed v q todc = record {
  counted = refl;
  few = omega arith;
  seated = IsSeated-set no_players.seats 0 0 v.guildcard no_players-IsSeated;
  led = record {
    below = omega arith;
    taken = refl;
    oldest = λ j p.
        seat-set (λ x. occupied x ≡ true → 1 ≤ x.game_player_id) no_players.seats 0 j
          (newcomer v.guildcard 1) (rw (seat-replicate 12 j) (λ full. cc)) (λ full. omega arith);
  };
}

pub remove-inside :
    (v : Visitor) (l : Players)
    → v.in_lobby ≡ true
    → remove_client_from_lobby v l ≡ (outside v, (vacate v l).0, (vacate v l).1)
unfolding remove_client_from_lobby
remove-inside v l here = rw here refl

vacate-none : (v : Visitor) → 0x0f < v.lobby_num → (vacate v no_players).0 ≡ no_players
unfolding vacate
vacate-none v game =
    let seats = leave_seat v.client_id no_players.seats in
    elim (Bool-cases (count_players 4 seats == 0)) [
      | inl empty ↦ rw (lt→ltb 0x0f v.lobby_num game, empty) refl
      | inr some_left ↦
          let (j, p, full) = count_players-some 4 seats (λ e. ground arith) in
          let free : occupied (seat seats j) ≡ false =
            leave_seat-any (λ x. occupied x ≡ false) no_players.seats v.client_id j
              (ap occupied (seat-replicate 12 j)) refl in
          absurd (true≢false (sym full ∙ free))
    ]

-- A game that comes about, by whatever request it was created and whoever has left or has joined
-- it while it was in use and not full, is empty again, or its count of players is right and its
-- leader is a player whom no other player has preceded. No join takes the counter of joins to 2^32
-- - 1.
pub Played-IsLed : (l : Players) → Played l → (l ≡ no_players) ⊎ IsLed l
Played-IsLed l (created v q todc) = inr (created-IsLed v q todc)
Played-IsLed l (joined v before g in_play room few) = elim (Played-IsLed before g) [
  | inl closed ↦ absurd (true≢false (sym in_play ∙ ap (λ r. r.in_use) closed))
  | inr led ↦
      let (ch, e, p, empty) = free_seat before led room in
      inr (
        subst (λ r. IsLed r.1) (sym (join_game-free v before ch e))
          (seat_player-IsLed v before ch led few empty))
]
Played-IsLed l (left v before g game here) = elim (Played-IsLed before g) [
  | inl closed ↦ inl (
      ap (λ r. r.1) (remove-inside v before here)
      ∙ (ap (λ b. (vacate v b).0) closed ∙ vacate-none v game))
  | inr led ↦
      subst (λ r. (r.1 ≡ no_players) ⊎ IsLed r.1) (sym (remove-inside v before here))
        (vacate-IsLed v before led game)
]
