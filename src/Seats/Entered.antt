-- ===== src/Seats/Entered.antt =====
-- How a visitor enters a lobby by Send67 of ship_server.c.
use tethealla.Base.{
  ℕ, suc, ◌-◌, ◌≤◌, ◌<◌, ◌≡◌, ◌≢◌, refl, sym, subst, ap, ◌⊎◌, inl, inr, List, true, false, not,
  some, arith, length, get_or, ltb, ltb→lt, Bool-cases, Option-cases, get_or-set_self,
  get_or-set_ne, length-set, ◌&&◌,
}
use tethealla.Game.{find_index}
use tethealla.Game.Find.{find_index-Found, find_index-none}
use tethealla.Seats.{
  Seat, Players, Visitor, occupied, seat, is_some, empty_seat, count_players, no_players,
}
use tethealla.Seats.Lobby.{seat_visitor, seek_lobby, start_lobby, enter_lobby}
use tethealla.Seats.Counted.{count_players-free, count_players-set, seat-set}
use tethealla.Seats.Sought.{AllFull, Sought, lobby_at, seek_lobby-Sought}

-- A lobby whose count is that of its twelve seats
pub record IsFilled (l : Players) : Type 0 where
  pub long : 12 ≤ length l.seats
  pub agrees : (j : ℕ) → j < 12 → (seat l.seats j).slot_use ≡ is_some (seat l.seats j).client
  pub counted : l.lobby_count ≡ count_players 12 l.seats

-- A visitor has taken an empty seat of a lobby; nobody else has moved.
pub record IsSat (v v' : Visitor) (k : ℕ) (l l' : Players) : Type 0 where
  pub number : v'.lobby_num ≡ suc k
  pub inside : v'.in_lobby ≡ true
  pub place : v'.client_id < 12
  pub was_empty : occupied (seat l.seats v'.client_id) ≡ false
  pub used : (seat l'.seats v'.client_id).slot_use ≡ true
  pub sits : (seat l'.seats v'.client_id).client ≡ some v.guildcard
  pub others : (j : ℕ) → v'.client_id ≢ j → seat l'.seats j ≡ seat l.seats j
  pub one_more : l'.lobby_count ≡ suc l.lobby_count
  pub filled : IsFilled l'

seat_visitor-IsSat :
    (v : Visitor) (k : ℕ) (l : Players)
    → IsFilled l
    → l.lobby_count < 12
    → IsSat v (seat_visitor k v l).0 k l (seat_visitor k v l).1
seat_visitor-IsSat v k l f room =
    elim (Option-cases (find_index (λ s. not s.slot_use) 12 l.seats)) [
      | inl nowhere ↦
          let (j, p, empty) = count_players-free 12 l.seats f.long (omega (arith, f.counted)) in
          let taken =
            find_index-none (λ (s : Seat). not s.slot_use) empty_seat 12 l.seats nowhere j p
              (omega (arith, f.long)) in
          let agree = f.agrees j p in absurd (ground arith)
      | inr (i, e) ↦
          let found = find_index-Found (λ (s : Seat). not s.slot_use) empty_seat 12 l.seats i e in
          let free = found.passes in
          let s' = record (seat l.seats i) { slot_use = true; client = some v.guildcard } in
          let empty : occupied (seat l.seats i) ≡ false = ground arith in
          let here = get_or-set_self l.seats i s' empty_seat found.inside in
          rw (seat_visitor, e)
            (record {
              number = refl;
              inside = refl;
              place = found.below;
              was_empty = empty;
              used = ap (λ s. s.slot_use) here;
              sits = ap (λ s. s.client) here;
              others = λ j other. get_or-set_ne l.seats i j s' empty_seat other;
              one_more = omega (
                arith,
                f.counted,
                count_players-set 12 i l.seats s' found.below found.inside empty refl,
              );
              filled = record {
                long = omega (arith, f.long, length-set l.seats i s');
                agrees = λ j p.
                    seat-set (λ s. s.slot_use ≡ is_some s.client) l.seats i j s' (f.agrees j p)
                      refl;
                counted = refl;
              };
            })
    ]

-- The visitor sits in a lobby with room: the preferred one where that has room, and otherwise the
-- first. The other lobbies are as before.
pub record IsEntered (v v' : Visitor) (preferred k : ℕ) (lobbies lobbies' : List Players)
    : Type 0 where
  pub below : k < 15
  pub sat : IsSat v v' k (lobby_at lobbies k) (lobby_at lobbies' k)
  pub liked : preferred < 15 → (lobby_at lobbies preferred).lobby_count < 12 → k ≡ preferred
  pub first : k ≢ preferred → (j : ℕ) → j < k → 12 ≤ (lobby_at lobbies j).lobby_count
  pub elsewhere : (j : ℕ) → k ≢ j → lobby_at lobbies' j ≡ lobby_at lobbies j

-- What the search comes to
abbrev pub Outcome : Visitor → ℕ → List Players → Visitor × List Players → Type 0
Outcome v preferred lobbies r =
    (AllFull lobbies 0 × (r ≡ (v, lobbies))) ⊎ ((k : ℕ) × IsEntered v r.0 preferred k lobbies r.1)

module _ (v : Visitor) (lobbies : List Players) (long : 15 ≤ length lobbies)
    (filled : (j : ℕ) → j < 15 → IsFilled (lobby_at lobbies j)) where
  Sought-IsEntered :
      (preferred ch k : ℕ) (r : Visitor × List Players)
      → Sought v lobbies ch k r
      → (preferred < 15 → (lobby_at lobbies preferred).lobby_count < 12 → k ≡ preferred)
      → (k ≢ preferred → ch ≡ 0)
      → IsEntered v r.0 preferred k lobbies r.1
  Sought-IsEntered preferred ch k r s liked start =
      let now = (seat_visitor k v (lobby_at lobbies k)).1 in
      subst (λ r. IsEntered v r.0 preferred k lobbies r.1) (sym s.result)
        (record {
          below = s.below;
          sat =
              subst (IsSat v (seat_visitor k v (lobby_at lobbies k)).0 k (lobby_at lobbies k))
                (sym (get_or-set_self lobbies k now no_players (omega (arith, s.below))))
                (seat_visitor-IsSat v k (lobby_at lobbies k) (filled k s.below) s.room);
          liked = liked;
          first = λ other j p. s.passed j (omega (arith, start other)) p;
          elsewhere = λ j other. get_or-set_ne lobbies k j now no_players other;
        })

  at_preferred :
      (preferred : ℕ)
      → preferred < 15
      → (lobby_at lobbies preferred).lobby_count < 12
      → Outcome v preferred lobbies (seek_lobby (15 - preferred) preferred v lobbies)
  at_preferred preferred p room =
      elim (seek_lobby-Sought v lobbies (15 - preferred) preferred (omega arith)) [
        | inl (full, same) ↦ absurd (omega (arith, full preferred (omega arith) p))
        | inr (k, s) ↦
            let here : k ≡ preferred = elim (Bool-cases (ltb preferred k)) [
              | inl past ↦
                  absurd (omega (arith, s.passed preferred (omega arith) (ltb→lt preferred k past)))
              | inr stop ↦ let from = s.from in ground arith
            ] in
            inr (
              k,
              Sought-IsEntered preferred preferred k
                  (seek_lobby (15 - preferred) preferred v lobbies) s (λ near room'. here)
                  (λ other. absurd (other here)),
            )
      ]

  from_first :
      (preferred : ℕ)
      → (preferred < 15 → (lobby_at lobbies preferred).lobby_count < 12 → ⊥)
      → Outcome v preferred lobbies (seek_lobby 15 0 v lobbies)
  from_first preferred no_room = elim (seek_lobby-Sought v lobbies 15 0 refl) [
    | inl (full, same) ↦ inl (full, same)
    | inr (k, s) ↦ inr (
      k,
      Sought-IsEntered preferred 0 k (seek_lobby 15 0 v lobbies) s
          (λ near room. absurd (no_room near room)) (λ other. refl),
    )
  ]

  from_start :
      (preferred : ℕ)
      → Outcome v preferred lobbies (
          seek_lobby (15 - start_lobby preferred lobbies) (start_lobby preferred lobbies) v lobbies)
  from_start preferred =
      elim (Bool-cases
        (ltb preferred 0x0f && ltb (get_or lobbies preferred no_players).lobby_count 12)) [
          | inl good ↦ rw good (at_preferred preferred (ground arith) (ground arith))
          | inr bad ↦ rw bad (from_first preferred (λ near room. ground arith))
        ]

inside-enter_lobby :
    (preferred : ℕ) (v : Visitor) (lobbies : List Players)
    → v.lobby_ok ≡ true
    → enter_lobby preferred v lobbies
      ≡ seek_lobby
          (15 - start_lobby preferred lobbies)
          (start_lobby preferred lobbies)
          (record v { lobby_ok = false })
          lobbies
unfolding enter_lobby
inside-enter_lobby preferred v lobbies ok = rw ok refl

-- Where the fifteen lobbies of a block are counted right, a client who is let in either finds them
-- all full, and nothing of them changes; or the client takes an empty seat in one with room, the
-- preferred lobby if that has room and the first otherwise. Everybody else stays, that lobby is
-- counted right again, and the others are as before.
pub enter_lobby-IsEntered :
    (preferred : ℕ) (v : Visitor) (lobbies : List Players)
    → 15 ≤ length lobbies
    → ((j : ℕ) → j < 15 → IsFilled (lobby_at lobbies j))
    → v.lobby_ok ≡ true
    → Outcome (record v { lobby_ok = false }) preferred lobbies (enter_lobby preferred v lobbies)
enter_lobby-IsEntered preferred v lobbies long filled ok =
    subst (Outcome (record v { lobby_ok = false }) preferred lobbies)
      (sym (inside-enter_lobby preferred v lobbies ok))
      (from_start (record v { lobby_ok = false }) lobbies long filled preferred)
