-- ===== src/Seats/Led.antt =====
-- The seats of a game and its leader, as Send64 and removeClientFromLobby keep them.
use tethealla.Base.{
  ℕ, suc, ◌≤◌, ◌<◌, ◌≡◌, ◌≢◌, refl, sym, subst, ap, ◌∙◌, inl, inr, List, true, false, none, some,
  arith, length, set, ltb, ◌==◌, Bool-cases, get_or-set_ne, if◌then◌else◌, length-set,
}
use mathlib.Core.Bool.{true≢false}
use tethealla.Seats.{
  Seat, Players, occupied, seat, is_some, empty_seat, leave_seat, count_players, next_leader,
}
use tethealla.Seats.Counted.{count_players-some, seat-set}
use tethealla.Seats.Leader.{Oldest, choose_leader-Oldest}

-- The seats agree with the count and with the numbers of the joins.
pub record IsSeated (seats : List Seat) (game_player_count : ℕ) : Type 0 where
  pub long : 4 ≤ length seats
  pub agrees : (j : ℕ) → j < 4 → (seat seats j).slot_use ≡ is_some (seat seats j).client
  pub numbered :
      (j : ℕ)
      → j < 4
      → occupied (seat seats j) ≡ true
      → (seat seats j).game_player_id ≤ game_player_count

-- The game has players, their count is right, and its leader is the player who has been in it
-- longest.
pub record IsLed (l : Players) : Type 0 where
  pub counted : l.lobby_count ≡ count_players 4 l.seats
  pub few : l.game_player_count < 0xffff_ffff
  pub seated : IsSeated l.seats l.game_player_count
  pub led : Oldest l.seats 4 l.leader

abbrev pub newcomer : ℕ → ℕ → Seat
newcomer g id = record { slot_use = true; client = some g; game_player_id = id }

-- A seat that is taken at a number that is higher than all before it
pub IsSeated-set :
    (seats : List Seat) (n ch g : ℕ)
    → IsSeated seats n
    → IsSeated (set seats ch (newcomer g (suc n))) (suc n)
IsSeated-set seats n ch g s =
    let s' = newcomer g (suc n) in
    record {
      long = omega (arith, s.long, length-set seats ch s');
      agrees =
          λ j p. seat-set (λ x. x.slot_use ≡ is_some x.client) seats ch j s' (s.agrees j p) refl;
      numbered = λ j p.
          seat-set (λ x. occupied x ≡ true → x.game_player_id ≤ suc n) seats ch j s'
            (λ full. omega (arith, s.numbered j p full)) (λ full. omega arith);
    }

pub Oldest-set :
    (seats : List Seat) (n ch g leader : ℕ)
    → IsSeated seats n
    → occupied (seat seats ch) ≡ false
    → Oldest seats 4 leader
    → Oldest (set seats ch (newcomer g (suc n))) 4 leader
Oldest-set seats n ch g leader s empty o =
    let s' = newcomer g (suc n) in
    let elsewhere : ch ≢ leader =
      λ here. true≢false (sym o.taken ∙ (ap (λ k. occupied (seat seats k)) (sym here) ∙ empty)) in
    let same = get_or-set_ne seats ch leader s' empty_seat elsewhere in
    record {
      below = o.below;
      taken = seat-set (λ x. occupied x ≡ true) seats ch leader s' o.taken refl;
      oldest = λ j p.
          subst
            (λ x.
              occupied (seat (set seats ch s') j) ≡ true
              → x.game_player_id ≤ (seat (set seats ch s') j).game_player_id)
            (sym same)
            (seat-set
              (λ x. occupied x ≡ true → (seat seats leader).game_player_id ≤ x.game_player_id) seats
              ch j s' (o.oldest j p) (λ full. omega (arith, s.numbered leader o.below o.taken)));
    }

-- A seat that is given up
abbrev pub given_up : Seat → Seat
given_up s = record s { slot_use = false; client = none }

pub leave_seat-any :
    (P : Seat → Type 0) (seats : List Seat) (id j : ℕ)
    → P (seat seats j)
    → P (given_up (seat seats id))
    → P (seat (leave_seat id seats) j)
leave_seat-any P seats id j old new =
    elim (ltb id 12)
      as (λ b. P (seat (if b then set seats id (given_up (seat seats id)) else seats) j)) [
        | true ↦ seat-set P seats id j (given_up (seat seats id)) old new
        | false ↦ old
      ]

pub length-leave_seat : (seats : List Seat) (id : ℕ) → length (leave_seat id seats) ≡ length seats
length-leave_seat seats id =
    elim (ltb id 12)
      as (λ b.
        length (if b then set seats id (given_up (seat seats id)) else seats) ≡ length seats) [
          | true ↦ length-set seats id (given_up (seat seats id))
          | false ↦ refl
        ]

-- The other seats are as before.
pub leave_seat-elsewhere :
    (seats : List Seat) (id j : ℕ) → id ≢ j → seat (leave_seat id seats) j ≡ seat seats j
leave_seat-elsewhere seats id j other =
    elim (ltb id 12)
      as (λ b.
        seat (if b then set seats id (given_up (seat seats id)) else seats) j ≡ seat seats j) [
          | true ↦ get_or-set_ne seats id j (given_up (seat seats id)) empty_seat other
          | false ↦ refl
        ]

pub leave_seat-IsSeated :
    (seats : List Seat) (id n : ℕ) → IsSeated seats n → IsSeated (leave_seat id seats) n
leave_seat-IsSeated seats id n s = record {
  long = omega (arith, s.long, length-leave_seat seats id);
  agrees =
      λ j p. leave_seat-any (λ x. x.slot_use ≡ is_some x.client) seats id j (s.agrees j p) refl;
  numbered = λ j p.
      leave_seat-any (λ x. occupied x ≡ true → x.game_player_id ≤ n) seats id j (s.numbered j p)
        (λ full. cc);
}

-- The leader of those who stay
pub next_leader-Oldest :
    (seats : List Seat) (id leader n : ℕ)
    → n < 0xffff_ffff
    → IsSeated seats n
    → Oldest seats 4 leader
    → count_players 4 (leave_seat id seats) ≢ 0
    → Oldest (leave_seat id seats) 4 (next_leader id leader (leave_seat id seats))
next_leader-Oldest seats id leader n few s o some_left = elim (Bool-cases (id == leader)) [
  | inl gone ↦
      let (j, p, full) = count_players-some 4 (leave_seat id seats) some_left in
      rw gone (
        choose_leader-Oldest (leave_seat id seats) 4 0xffff_ffff leader j p full
          (omega (arith, (leave_seat-IsSeated seats id n s).numbered j p full)))
  | inr stays ↦
      let same = leave_seat-elsewhere seats id leader (ground arith) in
      rw stays (record {
        below = o.below;
        taken = rw same o.taken;
        oldest = λ j p. rw same (
            leave_seat-any
              (λ x. occupied x ≡ true → (seat seats leader).game_player_id ≤ x.game_player_id) seats
              id j (o.oldest j p) (λ full. cc));
      })
]
