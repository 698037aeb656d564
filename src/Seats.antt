-- ===== src/Seats.antt =====
-- The places of the players in lobbies and games: removeClientFromLobby and free_game of
-- ship_server.c, the fields that initialize_game resets, and how Send64 seats a client.
-- The entries of `slot_use`, `client` and `gamePlayerID` at one index are one record here.
pub mod Lobby
pub mod Counted
pub mod Leader
pub mod Led
pub mod Played
pub mod Joined
pub mod Sought
pub mod Entered
mod Tests
use tethealla.Base.{
  ℕ, zero, suc, ◌+◌, ◌-◌, ◌%◌, ◌^◌, List, [], ◌∷◌, Bool, true, false, not, ◌&&◌, ◌||◌, Option, none,
  some, ltb, ◌==◌, if◌then◌else◌, get_or, set, replicate,
}
use tethealla.Game.{find_index}

-- One index of the arrays; `client` is known by its guild card.
pub record Seat : Type 0 where
  pub slot_use : Bool
  pub client : Option ℕ
  pub game_player_id : ℕ

-- `LOBBY`, with the fields of its players
pub record Players : Type 0 where
  pub lobby_count : ℕ
  pub leader : ℕ
  pub game_player_count : ℕ
  pub in_use : Bool
  pub seats : List Seat

-- `BANANA`, with the fields that say where the client is
pub record Visitor : Type 0 where
  pub guildcard : ℕ
  pub client_id : ℕ
  pub lobby_num : ℕ
  pub lobby_ok : Bool
  pub has_quest : Bool
  pub in_lobby : Bool

-- A packet for all but one of the first `max_send` players
pub record Notice : Type 0 where
  pub max_send : ℕ
  pub bytes : List ℕ
  pub nosend : ℕ

abbrev pub empty_seat : Seat
empty_seat = record { slot_use = false; client = none; game_player_id = 0 }

-- `memset (l, 0, sizeof (LOBBY))`
abbrev pub no_players : Players
no_players = record {
  lobby_count = 0;
  leader = 0;
  game_player_count = 0;
  in_use = false;
  seats = replicate 12 empty_seat;
}

-- What `initialize_game` reads of the request, from `decryptbuf[0x50]` on
pub record GameRequest : Type 0 where
  pub difficulty : ℕ
  pub battle : ℕ
  pub challenge : ℕ
  pub episode : ℕ
  pub oneperson : ℕ

-- The tests that set `todc`
abbrev pub refused : GameRequest → Bool
refused q =
    ltb 0x03 q.difficulty
    || ((not (q.battle == 0) && not (q.challenge == 0))
        || (ltb 0x03 q.episode
            || (not (q.oneperson == 0) && (not (q.challenge == 0) || not (q.battle == 0)))))

-- `initialize_game`: the client's `todc`, and the lobby, which is in use only where that is not set.
-- The fields that say how the game is played are left out.
unfoldable pub initialize_game : GameRequest → Bool → Bool × Players
initialize_game q todc =
    let todc' = todc || refused q in (todc', record no_players { in_use = not todc' })

abbrev pub is_some : Option ℕ → Bool
is_some none = false
is_some (some c) = true

-- `(l->slot_use[ch]) && (l->client[ch])`
abbrev pub occupied : Seat → Bool
occupied s = s.slot_use && is_some s.client

abbrev pub seat : List Seat → ℕ → Seat
seat seats ch = get_or seats ch empty_seat

-- `for (ch=0; ch<maxch; ch++) if (...) l->lobbyCount++`
unfoldable pub count_players : ℕ → List Seat → ℕ
count_players zero seats = 0
count_players (suc n) [] = 0
count_players (suc n) (s ∷ seats) =
    if occupied s then suc (count_players n seats) else count_players n seats

-- `lowestID` and `l->leader` after the loop that looks for the oldest player, from index `ch`
unfoldable pub choose_leader : ℕ → ℕ → List Seat → ℕ → ℕ → ℕ × ℕ
choose_leader zero ch seats lowest_id leader = (lowest_id, leader)
choose_leader (suc n) ch seats lowest_id leader =
    let older = occupied (seat seats ch) && ltb (seat seats ch).game_player_id lowest_id in
    choose_leader n (suc ch) seats (if older then (seat seats ch).game_player_id else lowest_id)
      (if older then ch else leader)

-- `slot_use[clientID] = 0; client[clientID] = 0;` under `clientID < 12`
abbrev pub leave_seat : ℕ → List Seat → List Seat
leave_seat id seats =
    if ltb id 12
    then set seats id (record (seat seats id) { slot_use = false; client = none })
    else seats

-- `Packet69` and `Packet66` as they are sent
abbrev pub packet69 : ℕ → List ℕ
packet69 id = 0x0c ∷ 0 ∷ 0x69 ∷ 0 ∷ 0 ∷ 0 ∷ 0 ∷ 0 ∷ id ∷ 6 ∷ 1 ∷ 0 ∷ []

abbrev pub packet66 : ℕ → ℕ → Bool → List ℕ
packet66 id leader changed =
    0x0c ∷ 0 ∷ 0x66 ∷ 0 ∷ 0 ∷ 0 ∷ 0 ∷ 0 ∷ id ∷ leader % 2 ^ 8 ∷ (if changed then 1 else 0) ∷ 0 ∷ []

-- The leader of a game from which the client at `id` has gone
abbrev pub next_leader : ℕ → ℕ → List Seat → ℕ
next_leader id leader seats =
    let (lowest_id, oldest) = choose_leader 4 0 seats 0xffff_ffff leader in
    if id == leader then oldest else leader

-- `removeClientFromLobby` past its first test, with the packet that it sends
unfoldable pub vacate : Visitor → Players → Players × Option Notice
vacate v l =
    let seats = leave_seat v.client_id l.seats in
    let is_game = ltb 0x0f v.lobby_num in
    let count = count_players (if is_game then 4 else 12) seats in
    let leader = next_leader v.client_id l.leader seats in
    if count == 0
    then (no_players, none)
    else if is_game
    then (
      record l { lobby_count = count; leader = leader; seats = seats },
      some (record {
        max_send = 4;
        bytes = packet66 v.client_id leader (v.client_id == l.leader);
        nosend = v.guildcard;
      }),
    )
    else (
      record l { lobby_count = count; seats = seats },
      some (record { max_send = 12; bytes = packet69 v.client_id; nosend = v.guildcard }),
    )

abbrev pub outside : Visitor → Visitor
outside v = record v { has_quest = false; lobby_num = 0; in_lobby = false }

-- `removeClientFromLobby`
unfoldable pub remove_client_from_lobby : Visitor → Players → Visitor × Players × Option Notice
remove_client_from_lobby v l =
    let (l', sent) = vacate v l in if v.in_lobby then (outside v, l', sent) else (v, l, none)

-- `free_game`, on the lobbies of the block from index 16 on: 0 where all are in use
unfoldable pub free_game : ℕ → List Players → ℕ
free_game max_games lobbies = elim (find_index (λ l. not l.in_use) max_games lobbies) [
  | none ↦ 0
  | some i ↦ 16 + i
]

abbrev pub recounted : ℕ → Players → Players
recounted maxch l = record l { lobby_count = count_players maxch l.seats }

-- The loop of `Send64` at the free seat `ch`
abbrev pub seat_player : ℕ → Visitor → Players → Players
seat_player ch v l =
    let count = (l.game_player_count + 1) % 2 ^ 32 in
    record l {
      game_player_count = count;
      seats =
          set l.seats ch
            (record { slot_use = true; client = some v.guildcard; game_player_id = count });
    }

-- `Send64`, what it does before it builds the packets
unfoldable pub join_game : Visitor → Players → Visitor × Players
join_game v l = elim (find_index (λ s. not s.slot_use) 4 l.seats) [
  | none ↦ (v, recounted 4 l)
  | some ch ↦ (record v { client_id = ch }, recounted 4 (seat_player ch v l))
]
