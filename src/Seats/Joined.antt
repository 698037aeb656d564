-- ===== src/Seats/Joined.antt =====
-- What a player who joins a game finds, and what stays when the player leaves again: Send64 and
-- removeClientFromLobby of ship_server.c.
use tethealla.Base.{
  ℕ, suc, ◌+◌, ◌%◌, ◌^◌, ◌≤◌, ◌<◌, ◌≡◌, ◌≢◌, refl, sym, subst, ap, ◌∙◌, List, true, false, inl, inr,
  none, arith, length, lt→ltb, ◌==◌, ==_iff, Bool-cases, get_or-set_self, get_or-set_ne, length-set,
}
use mathlib.Core.Bool.{true≢false}
use tethealla.Seats.{
  Seat, Players, Visitor, occupied, seat, empty_seat, join_game, vacate, recounted, seat_player,
  leave_seat, count_players, remove_client_from_lobby,
}
use tethealla.Seats.Counted.{count_players-set, count_players-same, count_players-taken}
use tethealla.Seats.Led.{IsLed, newcomer, length-leave_seat, leave_seat-elsewhere}
use tethealla.Seats.Played.{join_game-free, free_seat, remove-inside}

-- A visitor has taken a seat that was empty; nobody else has moved.
pub record IsJoined (v v' : Visitor) (l l' : Players) : Type 0 where
  pub below : v'.client_id < 4
  pub was_empty : occupied (seat l.seats v'.client_id) ≡ false
  pub sits : seat l'.seats v'.client_id ≡ newcomer v.guildcard (suc l.game_player_count)
  pub others : (j : ℕ) → v'.client_id ≢ j → seat l'.seats j ≡ seat l.seats j
  pub same_length : length l'.seats ≡ length l.seats
  pub one_more : l'.lobby_count ≡ suc l.lobby_count
  pub same_leader : l'.leader ≡ l.leader

seated_at :
    (v : Visitor) (l : Players) (ch : ℕ)
    → IsLed l
    → l.game_player_count < 0xffff_fffe
    → ch < 4
    → occupied (seat l.seats ch) ≡ false
    → IsJoined v (record v { client_id = ch }) l (recounted 4 (seat_player ch v l))
seated_at v l ch led few p empty =
    let next : (l.game_player_count + 1) % 2 ^ 32 ≡ suc l.game_player_count = omega arith in
    let s = newcomer v.guildcard (suc l.game_player_count) in
    let inside : ch < length l.seats = omega (arith, led.seated.long) in
    rw next (record {
      below = p;
      was_empty = empty;
      sits = get_or-set_self l.seats ch s empty_seat inside;
      others = λ j other. get_or-set_ne l.seats ch j s empty_seat other;
      same_length = length-set l.seats ch s;
      one_more = omega (arith, led.counted, count_players-set 4 ch l.seats s p inside empty refl);
      same_leader = refl;
    })

-- In a game that is led and not full, whose counter of joins is not at its end, who joins takes an
-- empty seat of the first four under the next number; the others stay in their seats, the count
-- grows by one and the leader is the same.
pub join_game-IsJoined :
    (v : Visitor) (l : Players)
    → IsLed l
    → l.lobby_count ≢ 4
    → l.game_player_count < 0xffff_fffe
    → IsJoined v (join_game v l).0 l (join_game v l).1
join_game-IsJoined v l led room few =
    let (ch, e, p, empty) = free_seat l led room in
    subst (λ r. IsJoined v r.0 l r.1) (sym (join_game-free v l ch e))
      (seated_at v l ch led few p empty)

-- The players are the same.
pub record IsBack (l l' : Players) : Type 0 where
  pub same_count : l'.lobby_count ≡ l.lobby_count
  pub same_leader : l'.leader ≡ l.leader
  pub same_taken : (j : ℕ) → occupied (seat l'.seats j) ≡ occupied (seat l.seats j)
  pub same_seats : (j : ℕ) → occupied (seat l.seats j) ≡ true → seat l'.seats j ≡ seat l.seats j

leave_seat_here :
    (seats : List Seat) (id : ℕ)
    → id < 4
    → 4 ≤ length seats
    → occupied (seat (leave_seat id seats) id) ≡ false
leave_seat_here seats id p long = rw (lt→ltb id 12 (omega arith)) (
    ap occupied (
      get_or-set_self seats id (record (seat seats id) { slot_use = false; client = none })
        empty_seat (omega arith)))

module _ (v v' : Visitor) (l l' : Players) (led : IsLed l) (s : IsJoined v v' l l') where
  left_taken :
      (j : ℕ) → occupied (seat (leave_seat v'.client_id l'.seats) j) ≡ occupied (seat l.seats j)
  left_taken j = elim (Bool-cases (v'.client_id == j)) [
    | inl here ↦
        subst
          (λ k. occupied (seat (leave_seat v'.client_id l'.seats) k) ≡ occupied (seat l.seats k))
          ((==_iff v'.client_id j).0 here)
          (leave_seat_here l'.seats v'.client_id s.below
              (omega (arith, led.seated.long, s.same_length))
            ∙ sym s.was_empty)
    | inr other ↦
        ap occupied
          (leave_seat-elsewhere l'.seats v'.client_id j (ground arith) ∙ s.others j (ground arith))
  ]

  left_count : count_players 4 (leave_seat v'.client_id l'.seats) ≡ count_players 4 l.seats
  left_count =
      count_players-same 4 (leave_seat v'.client_id l'.seats) l.seats
        (length-leave_seat l'.seats v'.client_id ∙ s.same_length) left_taken

  not_at : (j : ℕ) → occupied (seat l.seats j) ≡ true → v'.client_id ≢ j
  not_at j full =
      λ here. true≢false (sym full ∙ (ap (λ k. occupied (seat l.seats k)) (sym here) ∙ s.was_empty))

  left_again : 0x0f < v'.lobby_num → IsBack l (vacate v' l').0
  unfolding vacate
  left_again game =
      let others : (count_players 4 (leave_seat v'.client_id l'.seats) == 0) ≡ false =
        let some_left = count_players-taken 4 l.leader l.seats led.led.below led.led.taken in
        ground (arith, left_count) in
      let stays : (v'.client_id == l'.leader) ≡ false =
        let elsewhere = not_at l.leader led.led.taken in let same = s.same_leader in ground arith in
      rw (lt→ltb 0x0f v'.lobby_num game, others, stays)
        (record {
          same_count = left_count ∙ sym led.counted;
          same_leader = s.same_leader;
          same_taken = left_taken;
          same_seats = λ j full.
              leave_seat-elsewhere l'.seats v'.client_id j (not_at j full)
              ∙ s.others j (not_at j full);
        })

-- Who joins such a game and leaves it at once leaves the players as they were: their seats, their
-- count and their leader.
pub remove_client-join_game :
    (v : Visitor) (l : Players)
    → IsLed l
    → l.lobby_count ≢ 4
    → l.game_player_count < 0xffff_fffe
    → 0x0f < v.lobby_num
    → v.in_lobby ≡ true
    → IsBack l (remove_client_from_lobby (join_game v l).0 (join_game v l).1).1
remove_client-join_game v l led room few game here =
    let (ch, e, p, empty) = free_seat l led room in
    let v' = record v { client_id = ch } in
    let l' = recounted 4 (seat_player ch v l) in
    subst (λ r. IsBack l (remove_client_from_lobby r.0 r.1).1) (sym (join_game-free v l ch e))
      (subst (λ r. IsBack l r.1) (sym (remove-inside v' l' here))
        (left_again v v' l l' led (seated_at v l ch led few p empty) game))
