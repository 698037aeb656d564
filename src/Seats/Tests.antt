-- ===== src/Seats/Tests.antt =====
-- The theorems on seats at small games and lobbies, and runs of the functions.
use tethealla.Base.{
  ℕ, zero, suc, ◌≡◌, ◌⊎◌, ◌<◌, refl, [], ◌∷◌, List, true, false, some, arith, replicate,
  get_or-replicate,
}
use tethealla.Game.{find_index}
use tethealla.Seats.{
  Players, Visitor, empty_seat, no_players, GameRequest, initialize_game, join_game, count_players,
  choose_leader, vacate, remove_client_from_lobby, free_game,
}
use tethealla.Seats.Lobby.{seek_lobby, enter_lobby}
use tethealla.Seats.Led.{IsLed}
use tethealla.Seats.Played.{Played, created, joined, left, created-IsLed, Played-IsLed}
use tethealla.Seats.Joined.{IsJoined, IsBack, join_game-IsJoined, remove_client-join_game}
use tethealla.Seats.Sought.{lobby_at}
use tethealla.Seats.Entered.{IsFilled, Outcome, enter_lobby-IsEntered}

-- A plain game, and one whose difficulty is refused
abbrev request : ℕ → GameRequest
request difficulty = record {
  difficulty = difficulty;
  battle = 0;
  challenge = 0;
  episode = 1;
  oneperson = 0;
}

-- Two players of the game in lobby 16
abbrev player : ℕ → Visitor
player g = record {
  guildcard = g;
  client_id = 0;
  lobby_num = 17;
  lobby_ok = true;
  has_quest = false;
  in_lobby = true;
}

abbrev first_game : Players
first_game = (join_game (player 41) (initialize_game (request 2) false).1).1

abbrev both : Visitor × Players
both = join_game (player 42) first_game

-- A refused request leaves its client in a lobby that is not in use.
refused_game :
    let l = (join_game (player 41) (initialize_game (request 4) false).1).1 in
    (l.in_use ≡ false) × (l.lobby_count ≡ 1)
unfolding join_game initialize_game find_index count_players
refused_game = (refl, refl)

first_game-open : first_game.in_use ≡ true
unfolding join_game initialize_game find_index
first_game-open = refl

-- The leader leaves, and the other leads.
new_leader : (remove_client_from_lobby (player 41) both.1).1.leader ≡ 1
unfolding remove_client_from_lobby vacate join_game initialize_game find_index count_players
    choose_leader
new_leader = refl

-- The game of both after the first has gone
both-Played : Played (remove_client_from_lobby (player 41) both.1).1
unfolding join_game initialize_game find_index count_players
both-Played =
    left (player 41) both.1
      (joined (player 42) first_game (created (player 41) (request 2) false) refl (omega arith)
        (omega arith))
      (omega arith) refl

Played-IsLed_example :
    ((remove_client_from_lobby (player 41) both.1).1 ≡ no_players)
    ⊎ IsLed (remove_client_from_lobby (player 41) both.1).1
Played-IsLed_example = Played-IsLed (remove_client_from_lobby (player 41) both.1).1 both-Played

join_game-IsJoined_example : IsJoined (player 42) both.0 first_game both.1
unfolding join_game initialize_game find_index count_players
join_game-IsJoined_example =
    join_game-IsJoined (player 42) first_game (created-IsLed (player 41) (request 2) false)
      (omega arith) (omega arith)

remove_client-join_game_example : IsBack first_game (remove_client_from_lobby both.0 both.1).1
unfolding join_game initialize_game find_index count_players
remove_client-join_game_example =
    remove_client-join_game (player 42) first_game (created-IsLed (player 41) (request 2) false)
      (omega arith) (omega arith) (omega arith) refl

-- The first lobby is full, the others are empty.
abbrev full_lobby : Players
full_lobby = record no_players {
  lobby_count = 12;
  seats = replicate 12 (record { slot_use = true; client = some 7; game_player_id = 0 });
}

abbrev block : List Players
block = full_lobby ∷ replicate 14 no_players

full_lobby-IsFilled : IsFilled full_lobby
unfolding count_players
full_lobby-IsFilled = record {
  long = omega arith;
  agrees = λ j p.
      rw
        (get_or-replicate 12 j (record { slot_use = true; client = some 7; game_player_id = 0 })
          empty_seat p)
        refl;
  counted = refl;
}

no_players-IsFilled : IsFilled no_players
unfolding count_players
no_players-IsFilled = record {
  long = omega arith;
  agrees = λ j p. rw (get_or-replicate 12 j empty_seat empty_seat p) refl;
  counted = refl;
}

block-IsFilled : (j : ℕ) → j < 15 → IsFilled (lobby_at block j)
block-IsFilled zero p = full_lobby-IsFilled
block-IsFilled (suc j) p =
    rw (get_or-replicate 14 j no_players no_players (omega arith)) no_players-IsFilled

enter_lobby-IsEntered_example :
    Outcome (record (player 43) { lobby_ok = false }) 0 block (enter_lobby 0 (player 43) block)
enter_lobby-IsEntered_example =
    enter_lobby-IsEntered 0 (player 43) block (omega arith) block-IsFilled refl

-- The client who prefers the full lobby sits in the second.
second_lobby : (enter_lobby 0 (player 43) block).0.lobby_num ≡ 2
unfolding enter_lobby seek_lobby find_index count_players
second_lobby = refl

-- The first game that is not in use
free_game_here :
    free_game 3 (record no_players { in_use = true } ∷ no_players ∷ no_players ∷ []) ≡ 17
unfolding free_game find_index
free_game_here = refl
