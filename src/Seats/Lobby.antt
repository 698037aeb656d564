-- ===== src/Seats/Lobby.antt =====
-- Send67 of ship_server.c up to its packets: how a client enters a lobby of the block. The colour of
-- the arrow over the player is left out.
use tethealla.Base.{
  ℕ, zero, suc, ◌-◌, List, true, false, not, ◌&&◌, none, some, ltb, if◌then◌else◌, get_or, set,
}
use tethealla.Game.{find_index}
use tethealla.Seats.{Players, Visitor, seat, no_players, recounted}

-- The first seat of a lobby that is free, as `Send67` takes it in the lobby of index `ch`
abbrev pub seat_visitor : ℕ → Visitor → Players → Visitor × Players
seat_visitor ch v l = elim (find_index (λ s. not s.slot_use) 12 l.seats) [
  | none ↦ (v, recounted 12 l)
  | some i ↦ (
    record v { lobby_num = suc ch; in_lobby = true; client_id = i },
    recounted 12 (record l {
      seats =
          set l.seats i (record (seat l.seats i) { slot_use = true; client = some v.guildcard });
    }),
  )
]

-- `for (ch=ch; ch<15; ch++)` of `Send67`, with the lobbies that are left
unfoldable pub seek_lobby : ℕ → ℕ → Visitor → List Players → Visitor × List Players
seek_lobby zero ch v lobbies = (v, lobbies)
seek_lobby (suc n) ch v lobbies =
    let l = get_or lobbies ch no_players in
    let rest = seek_lobby n (suc ch) v lobbies in
    let (v', l') = seat_visitor ch v l in
    if ltb l.lobby_count 12 then (v', set lobbies ch l') else rest

-- The lobby that the search of `Send67` starts at
abbrev pub start_lobby : ℕ → List Players → ℕ
start_lobby preferred lobbies =
    if ltb preferred 0x0f && ltb (get_or lobbies preferred no_players).lobby_count 12
    then preferred
    else 0

-- `Send67`, what it does before it sends
unfoldable pub enter_lobby : ℕ → Visitor → List Players → Visitor × List Players
enter_lobby preferred v lobbies =
    let ch = start_lobby preferred lobbies in
    let (v', lobbies') = seek_lobby (15 - ch) ch (record v { lobby_ok = false }) lobbies in
    if v.lobby_ok then (v', lobbies') else (v, lobbies)
